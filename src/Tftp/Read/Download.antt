-- ===== src/Tftp/Read/Download.antt =====
-- A download by a client that acknowledges each block.
use esp32_berry_lang.Base.{
  ℕ, zero, suc, ◌+◌, ◌≤◌, ◌<◌, min, Bytes, List, [], ◌∷◌, ◌++◌, some, length, take, drop, overlay,
  ◌≡◌, refl, ap, arith, append_assoc, Option, ◌∙◌, length-drop, length-overlay, take-overlay, true,
  ltb, Bool-cases, inl, inr, length-take, take_all, tests, ltb_false→le,
}
use esp32_berry_lang.Base.Int.{pos}
use esp32_berry_lang.Stdio.{Stream}
use esp32_berry_lang.Tftp.Wire.{data_cmd, hi, lo, put16}
use esp32_berry_lang.Tftp.Machine.{
  Code, ok, Recv, datagram, Sent, Server, ack_packet, sendto, wait_for_ack,
}
use esp32_berry_lang.Tftp.Machine.Sends.{sendto_lem}
use esp32_berry_lang.Tftp.Data.Loops.{on_read_data_lem}
use esp32_berry_lang.Tftp.Read.{put_header, read_block, attempts, read_rounds, process_read}

-- The payloads that a file is sent as. A payload of 512 bytes is followed by the bytes from the
-- 514th on: the 513th has been read, and dropped.
pub data Chunks : Bytes → List Bytes → Type 0 where
  last : {l : Bytes} → length l < 512 → Chunks l (l ∷ [])
  more :
      {l : Bytes} {ps : List Bytes}
      → 512 ≤ length l
      → Chunks (drop 513 l) ps
      → Chunks l (take 512 l ∷ ps)

-- The acknowledgements that such a client sends, and the packets that the server sends.
abbrev pub ack_replies : ℕ → ℕ → List Bytes → List Recv
ack_replies from block [] = []
ack_replies from block (p ∷ ps) = datagram from (ack_packet block) ∷ ack_replies from (block + 1) ps

abbrev pub data_packets : ℕ → ℕ → List Bytes → List Sent
data_packets to block [] = []
data_packets to block (p ∷ ps) =
    record { to = to; payload = hi data_cmd ∷ lo data_cmd ∷ hi block ∷ lo block ∷ p }
    ∷ data_packets to (block + 1) ps

pub put16_lem :
    (b : Bytes) (op x : ℕ)
    → 4 ≤ length b
    → put16 (put16 b 0 op) 2 x ≡ hi op ∷ lo op ∷ hi x ∷ lo x ∷ drop 4 b
put16_lem [] op x h = absurd (omega arith)
put16_lem (a ∷ []) op x h = absurd (omega arith)
put16_lem (a ∷ c ∷ []) op x h = absurd (omega arith)
put16_lem (a ∷ c ∷ d ∷ []) op x h = absurd (omega arith)
put16_lem (a ∷ c ∷ d ∷ e ∷ b) op x h = refl

-- The state with a block in the buffer, ready to be sent.
abbrev pub loaded : Server → ℕ → Stream → Server
loaded s block st = record s {
  m_buffer =
      hi data_cmd
      ∷ lo data_cmd
      ∷ hi block
      ∷ lo block
      ∷ overlay (take 512 st.rest) (drop 4 s.m_buffer);
  m_data_size = pos (min 512 (length st.rest));
  file = some (record st { rest = drop 513 st.rest });
}

pub read_block_lem :
    (s : Server) (st : Stream)
    → s.file ≡ some st
    → read_block s ≡ record s {
      m_data_size = pos (min 512 (length st.rest));
      m_buffer = take 4 s.m_buffer ++ overlay (take 512 st.rest) (drop 4 s.m_buffer);
      file = some (record st { rest = drop 513 st.rest });
    }
unfolding read_block
read_block_lem s st hf = ground (arith, on_read_data_lem st 512 (drop 4 s.m_buffer))

put_header_lem :
    (block : ℕ) (s : Server)
    → 4 ≤ length s.m_buffer
    → put_header block s
      ≡ record s { m_buffer = hi data_cmd ∷ lo data_cmd ∷ hi block ∷ lo block ∷ drop 4 s.m_buffer }
unfolding put_header
put_header_lem block s h =
    ap (λ b. record s { m_buffer = b }) (put16_lem s.m_buffer data_cmd block h)

pub read_block-loaded :
    (s : Server) (block : ℕ) (st : Stream)
    → s.file ≡ some st
    → length s.m_buffer ≡ 516
    → read_block (put_header block s) ≡ loaded s block st
read_block-loaded s block st hf hb = rw (
  put_header_lem block s (omega arith),
  read_block_lem
      (record s { m_buffer = hi data_cmd ∷ lo data_cmd ∷ hi block ∷ lo block ∷ drop 4 s.m_buffer })
      st hf,
)

-- The state after the block has been sent and acknowledged.
abbrev sent_out : Server → ℕ → Stream → Server
sent_out s block st = record (loaded s block st) {
  outbox =
      s.outbox
      ++ (record {
        to = s.m_client;
        payload = hi data_cmd ∷ lo data_cmd ∷ hi block ∷ lo block ∷ take 512 st.rest;
      }
          ∷ []);
}

-- An acknowledgement of this block is taken, whoever sends it.
pub wait_for_ack_lem :
    (block from : ℕ) (inbox : List Recv) (s : Server)
    → wait_for_ack block (datagram from (ack_packet block) ∷ inbox) s
      ≡ (ok, inbox, record s { m_client = from })
unfolding wait_for_ack
wait_for_ack_lem block from inbox s = ground arith

pub attempts_ok :
    (r size block : ℕ) (inbox inbox' : List Recv) (s s1 s2 : Server)
    → sendto (take (size + 4) s.m_buffer) s ≡ (true, s1)
    → wait_for_ack block inbox s1 ≡ (ok, inbox', s2)
    → attempts (suc r) size block inbox s ≡ (true, inbox', s2)
unfolding attempts
attempts_ok r size block inbox inbox' s s1 s2 h k = ground arith

pub take_header :
    (m a b c d : ℕ) (xs : Bytes) → take (m + 4) (a ∷ b ∷ c ∷ d ∷ xs) ≡ a ∷ b ∷ c ∷ d ∷ take m xs
take_header m a b c d xs =
    ap (λ k. take k (a ∷ b ∷ c ∷ d ∷ xs)) {y = suc (suc (suc (suc m)))} (omega arith)

attempts-sent :
    (s : Server) (block r : ℕ) (st : Stream) (inbox : List Recv)
    → s.sends ≡ []
    → length s.m_buffer ≡ 516
    → attempts
        (suc r)
        (min 512 (length st.rest))
        block
        (datagram s.m_client (ack_packet block) ∷ inbox)
        (loaded s block st)
      ≡ (true, inbox, sent_out s block st)
attempts-sent s block r st inbox hs hb =
    attempts_ok r _ block _ inbox (loaded s block st) (sent_out s block st) (sent_out s block st)
      (sendto_lem _ (loaded s block st) hs
        ∙ ap
            (λ p. (
              true,
              record (loaded s block st) {
                outbox = s.outbox ++ (record { to = s.m_client; payload = p } ∷ []);
              },
            ))
            (take_header (min 512 (length st.rest)) _ _ _ _ _
              ∙ ap (λ t. hi data_cmd ∷ lo data_cmd ∷ hi block ∷ lo block ∷ t)
                  (take-overlay _ (take 512 st.rest) (drop 4 s.m_buffer)
                    (omega (arith, length-take 512 st.rest))
                    (omega (arith, length-take 512 st.rest, length-drop 4 s.m_buffer)))))
      (wait_for_ack_lem block s.m_client inbox (sent_out s block st))

-- The outcome of the transfer that began in `s`.
pub record Downloaded (s : Server) (block : ℕ) (ps : List Bytes) (inbox : List Recv)
    (out : Option (Code × List Recv × Server)) : Type 0 where
  pub final : Server
  pub succeeds : out ≡ some (ok, inbox, final)
  pub packets : final.outbox ≡ s.outbox ++ data_packets s.m_client block ps

pub round_last :
    (fuel block : ℕ) (inbox rest : List Recv) (s s1 s2 : Server) (n : ℕ)
    → read_block (put_header block s) ≡ s1
    → s1.m_data_size ≡ pos n
    → attempts 3 n block inbox s1 ≡ (true, rest, s2)
    → n < 512
    → read_rounds (suc fuel) block inbox s ≡ some (ok, rest, s2)
unfolding read_rounds
round_last fuel block inbox rest s s1 s2 n h e k lt = ground arith

pub round_more :
    (fuel block : ℕ) (inbox rest : List Recv) (s s1 s2 : Server) (n : ℕ)
    → read_block (put_header block s) ≡ s1
    → s1.m_data_size ≡ pos n
    → attempts 3 n block inbox s1 ≡ (true, rest, s2)
    → 512 ≤ n
    → read_rounds (suc fuel) block inbox s ≡ read_rounds fuel (block + 1) rest s2
unfolding read_rounds
round_more fuel block inbox rest s s1 s2 n h e k le = ground arith

read_rounds-Downloaded :
    (fuel block : ℕ) {l : Bytes} {ps : List Bytes} (inbox : List Recv) (s : Server) (st : Stream)
    → Chunks l ps
    → st.rest ≡ l
    → s.sends ≡ []
    → s.file ≡ some st
    → length s.m_buffer ≡ 516
    → length ps ≤ fuel
    → Downloaded s block ps inbox
        (read_rounds fuel block (ack_replies s.m_client block ps ++ inbox) s)
read_rounds-Downloaded zero block inbox s st (last h) e hs hf hb hn = absurd (omega arith)
read_rounds-Downloaded zero block inbox s st (more h c) e hs hf hb hn = absurd (omega arith)
read_rounds-Downloaded (suc fuel) block {l} inbox s st (last h) e hs hf hb hn = record {
  final = sent_out s block st;
  succeeds =
      round_last fuel block (datagram s.m_client (ack_packet block) ∷ inbox) inbox s
        (loaded s block st) (sent_out s block st) (min 512 (length st.rest))
        (read_block-loaded s block st hf hb) refl (attempts-sent s block 2 st inbox hs hb)
        (rw e (omega arith));
  packets = rw (e, take_all 512 l (omega arith));
}
read_rounds-Downloaded (suc fuel) block {l} inbox s st (more {ps = ps} h c) e hs hf hb hn =
    let ih =
      read_rounds-Downloaded fuel (block + 1) inbox (sent_out s block st)
        (record st { rest = drop 513 st.rest }) c (ap (drop 513) e) hs refl
        (omega
          (arith, length-overlay (take 512 st.rest) (drop 4 s.m_buffer), length-drop 4 s.m_buffer))
        (omega arith) in
    record {
      final = ih.final;
      succeeds =
          round_more fuel block _ _ s (loaded s block st) (sent_out s block st)
            (min 512 (length st.rest)) (read_block-loaded s block st hf hb) refl
            (attempts-sent s block 2 st (ack_replies s.m_client (block + 1) ps ++ inbox) hs hb)
            (rw e (omega arith))
          ∙ ih.succeeds;
      packets = ih.packets ∙ simp e (append_assoc s.outbox _ _);
    }

-- Every file is cut in some way.
pub Chunks-total : (k : ℕ) (l : Bytes) → length l < k → (ps : List Bytes) × Chunks l ps
Chunks-total zero l h = absurd (omega arith)
Chunks-total (suc k) l h = elim (Bool-cases (ltb (length l) 512)) [
  | inl small ↦ (l ∷ [], last (omega (tests, small)))
  | inr big ↦
      let (ps, c) =
        Chunks-total k (drop 513 l)
          (omega (arith, length-drop 513 l, ltb_false→le (length l) 512 big)) in
      (take 512 l ∷ ps, more (ltb_false→le (length l) 512 big) c)
]

pub Chunks-length : {l : Bytes} {ps : List Bytes} → Chunks l ps → length ps ≤ suc (length l)
Chunks-length (last h) = omega arith
Chunks-length {l} (more h c) = omega (arith, Chunks-length c, length-drop 513 l)

-- Let a client acknowledge the blocks of a file in order, from 1, and let the file be open, nothing
-- be sent yet and the buffer have 516 bytes. Then `process_read` sends the file's chunks of 512
-- bytes and its shorter last one as DATA packets numbered from 1, reports success and takes no
-- further datagram.
pub process_read-Downloaded :
    {ps : List Bytes} (inbox : List Recv) (s : Server) (st : Stream)
    → Chunks st.rest ps
    → s.sends ≡ []
    → s.file ≡ some st
    → length s.m_buffer ≡ 516
    → Downloaded s 1 ps inbox (process_read (ack_replies s.m_client 1 ps ++ inbox) s)
unfolding process_read
process_read-Downloaded inbox s st c hs hf hb =
    simp hf
      (read_rounds-Downloaded (suc (length st.rest)) 1 inbox s st c refl hs hf hb (Chunks-length c))
