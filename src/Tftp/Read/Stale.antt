-- ===== src/Tftp/Read/Stale.antt =====
-- A download by a client that also sends acknowledgements of other blocks.
use esp32_berry_lang.Base.{
  ℕ, zero, suc, ◌+◌, ◌*◌, false, ◌≤◌, ◌<◌, ◌%◌, ◌==◌, min, Bytes, List, [], ◌∷◌, ◌++◌, some, length,
  take, drop, replicate, ◌≡◌, ◌≢◌, refl, ap, arith, append_assoc, append-nil, ◌∙◌, sym, length-drop,
  length-overlay, take-overlay, length-take, take_all, true, Option,
}
use esp32_berry_lang.Stdio.{Stream}
use esp32_berry_lang.Tftp.Wire.{data_cmd, hi, lo}
use esp32_berry_lang.Tftp.Machine.{
  Code, ok, again, Recv, datagram, Sent, Server, ack_packet, sendto, check_ack, wait_for_ack,
}
use esp32_berry_lang.Tftp.Machine.Sends.{sendto_lem}
use esp32_berry_lang.Tftp.Read.{attempts, read_rounds, process_read}
use esp32_berry_lang.Tftp.Read.Download.{
  loaded, read_block-loaded, wait_for_ack_lem, attempts_ok, take_header, round_last, round_more,
}

-- A block with the numbers that the client acknowledges before it acknowledges the block.
pub record Answered : Type 0 where
  pub block : Bytes
  pub stale : List ℕ

abbrev pub AreStale : ℕ → List ℕ → Type 0
AreStale block [] = Unit
AreStale block (k ∷ ks) = (k % 65536 ≢ block % 65536) × AreStale block ks

-- The chunks of a file from this block on, with the acknowledgements of other numbers that come before
-- that of each block: two of them at most.
pub data Answers : ℕ → Bytes → List Answered → Type 0 where
  last_answer :
      {block : ℕ} {l : Bytes} (ks : List ℕ)
      → length l < 512
      → AreStale block ks
      → length ks ≤ 2
      → Answers block l (record { block = l; stale = ks } ∷ [])
  answer :
      {block : ℕ} {l : Bytes} {cs : List Answered} (ks : List ℕ)
      → 512 ≤ length l
      → AreStale block ks
      → length ks ≤ 2
      → Answers (block + 1) (drop 513 l) cs
      → Answers block l (record { block = take 512 l; stale = ks } ∷ cs)

abbrev pub acks_of : ℕ → List ℕ → List Recv → List Recv
acks_of from [] rest = rest
acks_of from (k ∷ ks) rest = datagram from (ack_packet k) ∷ acks_of from ks rest

-- What the client sends, with `rest` behind it
abbrev pub replies : ℕ → ℕ → List Answered → List Recv → List Recv
replies from block [] rest = rest
replies from block (a ∷ as_more) rest =
    acks_of from a.stale (datagram from (ack_packet block) ∷ replies from (block + 1) as_more rest)

abbrev pub block_packet : ℕ → ℕ → Bytes → Sent
block_packet to block p = record {
  to = to;
  payload = hi data_cmd ∷ lo data_cmd ∷ hi block ∷ lo block ∷ p;
}

-- What the server sends: each block once, and once more for each acknowledgement of another number.
abbrev pub sent_blocks : ℕ → ℕ → List Answered → List Sent
sent_blocks to block [] = []
sent_blocks to block (a ∷ as_more) =
    replicate (suc (length a.stale)) (block_packet to block a.block)
    ++ sent_blocks to (block + 1) as_more

-- The state with a block in the buffer, once these packets have been sent.
abbrev loaded_with : Server → ℕ → Stream → List Sent → Server
loaded_with s block st o = record (loaded s block st) { outbox = o }

attempts_again :
    (r size block : ℕ) (inbox inbox' : List Recv) (s s1 s2 : Server)
    → sendto (take (size + 4) s.m_buffer) s ≡ (true, s1)
    → wait_for_ack block inbox s1 ≡ (again, inbox', s2)
    → attempts (suc r) size block inbox s ≡ attempts r size block inbox' s2
unfolding attempts
attempts_again r size block inbox inbox' s s1 s2 h k = ground arith

word_differs : (k m : ℕ) → k % 65536 ≢ m → ((hi k * 256 + lo k) == m) ≡ false
word_differs k m h =
    let word : hi k * 256 + lo k ≡ k % 65536 = omega arith in rw word (ground (arith, h))

wait_for_ack-stale :
    (block from k : ℕ) (inbox : List Recv) (s : Server)
    → k % 65536 ≢ block % 65536
    → wait_for_ack block (datagram from (ack_packet k) ∷ inbox) s
      ≡ (again, inbox, record s { m_client = from })
unfolding wait_for_ack check_ack
wait_for_ack-stale block from k inbox s h = simp (word_differs k (block % 65536) h)

sendto-loaded :
    (s : Server) (block : ℕ) (st : Stream) (o : List Sent)
    → s.sends ≡ []
    → length s.m_buffer ≡ 516
    → sendto
        (take (min 512 (length st.rest) + 4) (loaded s block st).m_buffer)
        (loaded_with s block st o)
      ≡ (
        true,
        loaded_with s block st (o ++ (block_packet s.m_client block (take 512 st.rest) ∷ [])),
      )
sendto-loaded s block st o hs hb =
    sendto_lem _ (loaded_with s block st o) hs
    ∙ ap (λ p. (true, loaded_with s block st (o ++ (record { to = s.m_client; payload = p } ∷ []))))
        (take_header (min 512 (length st.rest)) _ _ _ _ _
          ∙ ap (λ t. hi data_cmd ∷ lo data_cmd ∷ hi block ∷ lo block ∷ t)
              (take-overlay _ (take 512 st.rest) (drop 4 s.m_buffer)
                (omega (arith, length-take 512 st.rest))
                (omega (arith, length-take 512 st.rest, length-drop 4 s.m_buffer))))

attempts-stale :
    (r : ℕ) (ks : List ℕ) (s : Server) (block : ℕ) (st : Stream) (o : List Sent) (inbox : List Recv)
    → s.sends ≡ []
    → length s.m_buffer ≡ 516
    → AreStale block ks
    → length ks ≤ r
    → attempts
        (suc r)
        (min 512 (length st.rest))
        block
        (acks_of s.m_client ks (datagram s.m_client (ack_packet block) ∷ inbox))
        (loaded_with s block st o)
      ≡ (
        true,
        inbox,
        loaded_with s block st
            (o ++ replicate (suc (length ks)) (block_packet s.m_client block (take 512 st.rest))),
      )
attempts-stale r [] s block st o inbox hs hb hk hl =
    let t = loaded_with s block st (o ++ (block_packet s.m_client block (take 512 st.rest) ∷ [])) in
    attempts_ok r _ block _ inbox (loaded_with s block st o) t t (sendto-loaded s block st o hs hb)
      (wait_for_ack_lem block s.m_client inbox t)
attempts-stale zero (k ∷ ks) s block st o inbox hs hb hk hl = absurd (omega arith)
attempts-stale (suc r) (k ∷ ks) s block st o inbox hs hb hk hl =
    let packet = block_packet s.m_client block (take 512 st.rest) in
    let t = loaded_with s block st (o ++ (packet ∷ [])) in
    let behind = acks_of s.m_client ks (datagram s.m_client (ack_packet block) ∷ inbox) in
    attempts_again (suc r) _ block _ behind (loaded_with s block st o) t t
      (sendto-loaded s block st o hs hb) (wait_for_ack-stale block s.m_client k behind t hk.0)
    ∙ attempts-stale r ks s block st (o ++ (packet ∷ [])) inbox hs hb hk.1 (omega arith)
    ∙ ap (λ q. (true, inbox, loaded_with s block st q))
        (append_assoc o (packet ∷ []) (replicate (suc (length ks)) packet))

-- The outcome of the transfer that began in `s`.
pub record Fetches (s : Server) (block : ℕ) (as_sent : List Answered) (inbox : List Recv)
    (out : Option (Code × List Recv × Server)) : Type 0 where
  pub final : Server
  pub succeeds : out ≡ some (ok, inbox, final)
  pub packets : final.outbox ≡ s.outbox ++ sent_blocks s.m_client block as_sent

Answers-length :
    {block : ℕ} {l : Bytes} {cs : List Answered} → Answers block l cs → length cs ≤ suc (length l)
Answers-length (last_answer ks h k n) = omega arith
Answers-length {l = l} (answer ks h k n c) = omega (arith, Answers-length c, length-drop 513 l)

read_rounds-Fetches :
    (fuel : ℕ) {block : ℕ} {l : Bytes} {cs : List Answered} (inbox : List Recv) (s : Server)
    (st : Stream)
    → Answers block l cs
    → st.rest ≡ l
    → s.sends ≡ []
    → s.file ≡ some st
    → length s.m_buffer ≡ 516
    → length cs ≤ fuel
    → Fetches s block cs inbox (read_rounds fuel block (replies s.m_client block cs inbox) s)
read_rounds-Fetches zero inbox s st (last_answer ks h k n) e hs hf hb hn = absurd (omega arith)
read_rounds-Fetches zero inbox s st (answer ks h k n c) e hs hf hb hn = absurd (omega arith)
read_rounds-Fetches (suc fuel) {block} {l} inbox s st (last_answer ks h k n) e hs hf hb hn =
    let packets = replicate (suc (length ks)) (block_packet s.m_client block (take 512 st.rest)) in
    record {
      final = loaded_with s block st (s.outbox ++ packets);
      succeeds =
          round_last fuel block
            (acks_of s.m_client ks (datagram s.m_client (ack_packet block) ∷ inbox)) inbox s
            (loaded s block st) (loaded_with s block st (s.outbox ++ packets))
            (min 512 (length st.rest)) (read_block-loaded s block st hf hb) refl
            (attempts-stale 2 ks s block st s.outbox inbox hs hb k n) (rw e (omega arith));
      packets =
          ap (λ p. s.outbox ++ replicate (suc (length ks)) (block_packet s.m_client block p))
            (ap (take 512) e ∙ take_all 512 l (omega arith))
          ∙ ap (s.outbox ++◌)
              (sym (append-nil (replicate (suc (length ks)) (block_packet s.m_client block l))));
    }
read_rounds-Fetches (suc fuel) {block} {l} inbox s st (answer {cs = cs} ks h k n c) e hs hf hb hn =
    let packets = replicate (suc (length ks)) (block_packet s.m_client block (take 512 st.rest)) in
    let t = loaded_with s block st (s.outbox ++ packets) in
    let ih =
      read_rounds-Fetches fuel inbox t (record st { rest = drop 513 st.rest }) c (ap (drop 513) e)
        hs refl
        (omega
          (arith, length-overlay (take 512 st.rest) (drop 4 s.m_buffer), length-drop 4 s.m_buffer))
        (omega arith) in
    record {
      final = ih.final;
      succeeds =
          round_more fuel block _ _ s (loaded s block st) t (min 512 (length st.rest))
            (read_block-loaded s block st hf hb) refl
            (attempts-stale 2 ks s block st s.outbox (replies s.m_client (block + 1) cs inbox) hs hb
              k n)
            (rw e (omega arith))
          ∙ ih.succeeds;
      packets = ih.packets ∙ simp e (append_assoc s.outbox _ _);
    }

pub process_read-Fetches :
    {cs : List Answered} (inbox : List Recv) (s : Server) (st : Stream)
    → Answers 1 st.rest cs
    → s.sends ≡ []
    → s.file ≡ some st
    → length s.m_buffer ≡ 516
    → Fetches s 1 cs inbox (process_read (replies s.m_client 1 cs inbox) s)
unfolding process_read
process_read-Fetches inbox s st c hs hf hb =
    simp hf
      (read_rounds-Fetches (suc (length st.rest)) inbox s st c refl hs hf hb (Answers-length c))
