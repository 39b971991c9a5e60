-- ===== src/Tftp/Write/Repeats.antt =====
-- An upload by a client that sends packets again: blocks that have passed, and its request before
-- the first block.
use esp32_berry_lang.Base.{
  ℕ, ◌+◌, ◌-◌, ◌≤◌, ◌<◌, Bytes, List, [], ◌∷◌, ◌++◌, some, length, drop, overlay, ◌≡◌, refl, arith,
  append_assoc, ◌∙◌, length-drop, length-overlay, overlay-eq-append, lt→ltb, le→ltb_false,
}
use esp32_berry_lang.Stdio.{Stream}
use esp32_berry_lang.Tftp.Wire.{wrq, hi, lo}
use esp32_berry_lang.Tftp.Machine.{Code, ok, Recv, datagram, Sent, Server, ack_packet}
use esp32_berry_lang.Tftp.Data.{head_or}
use esp32_berry_lang.Tftp.Write.{write_rounds, process_write}
use esp32_berry_lang.Tftp.Write.Rounds.{write_rounds-stop, write_rounds-go}
use esp32_berry_lang.Tftp.Write.Steps.{only_acked, get16_header, step-repeated, step-request}
use esp32_berry_lang.Tftp.Write.Upload.{
  data_packet, taken, step-data, length-filled, drop-plus, space,
}

-- What the client sends: the block that is due, a block of this number again, or the request again,
-- with these two bytes behind its code.
pub data Packet : Type 0 where
  due : Bytes → Packet
  repeated : ℕ → Bytes → Packet
  request : ℕ → ℕ → Bytes → Packet

-- The datagrams, where `next` is the number of the block that is due.
abbrev pub sent : ℕ → ℕ → List Packet → List Recv
sent from next [] = []
sent from next (due p ∷ ps) = datagram from (data_packet next p) ∷ sent from (next + 1) ps
sent from next (repeated k q ∷ ps) = datagram from (data_packet k q) ∷ sent from next ps
sent from next (request x y q ∷ ps) =
    datagram from (hi wrq ∷ lo wrq ∷ x ∷ y ∷ q) ∷ sent from next ps

-- The acknowledgements of those packets.
abbrev pub answers : ℕ → ℕ → List Packet → List Sent
answers to next [] = []
answers to next (due p ∷ ps) =
    record { to = to; payload = ack_packet next } ∷ answers to (next + 1) ps
answers to next (repeated k q ∷ ps) =
    record { to = to; payload = ack_packet k } ∷ answers to next ps
answers to next (request x y q ∷ ps) =
    record { to = to; payload = ack_packet 0 } ∷ answers to next ps

abbrev pub payloads : List Packet → List Bytes
payloads [] = []
payloads (due p ∷ ps) = p ∷ payloads ps
payloads (_ ∷ ps) = payloads ps

-- Each block that is due has 512 bytes, but the last packet is a block with fewer; a full block comes
-- again only once it has passed, and the request only before the first block.
abbrev pub IsSending : ℕ → List Packet → Type 0
IsSending next [] = ⊥
IsSending next (due p ∷ []) = length p < 512
IsSending next (due p ∷ q ∷ ps) = (length p ≡ 512) × IsSending (next + 1) (q ∷ ps)
IsSending next (repeated k q ∷ ps) = (k < next) × (length q ≡ 512) × IsSending next ps
IsSending next (request x y q ∷ ps) = (next ≡ 1) × (length q ≤ 512) × IsSending next ps

-- What is written to the file: each block once, with one byte more behind it, which is what the
-- buffer `d`, or the heap behind it, holds there.
abbrev pub stored_once : ℕ → Bytes → List Packet → Bytes
stored_once beyond d [] = []
stored_once beyond d (due p ∷ ps) =
    p ++ (head_or (drop (length p) d) beyond ∷ stored_once beyond (overlay p d) ps)
stored_once beyond d (repeated k q ∷ ps) = stored_once beyond (overlay q d) ps
stored_once beyond d (request x y q ∷ ps) = stored_once beyond (overlay q d) ps

-- The outcome of the transfer that began in `s`.
pub record Stored (s : Server) (st : Stream) (from next : ℕ) (ps : List Packet) (inbox : List Recv)
    (out : Code × List Recv × Server) : Type 0 where
  pub succeeds : out.0 ≡ ok
  pub unread : out.1 ≡ inbox
  pub content :
      out.2.file
      ≡ some (record st {
        written = st.written ++ stored_once s.beyond (drop 4 s.m_buffer) ps;
        room = st.room - space (payloads ps);
      })
  pub acked : out.2.outbox ≡ s.outbox ++ answers from next ps
  pub same_closed : out.2.closed ≡ s.closed

after_repeat :
    (a b x y : ℕ) (q : Bytes) (s : Server) (st : Stream) (from next block : ℕ) (ps : List Packet)
    (inbox : List Recv) (out : Code × List Recv × Server)
    → length s.m_buffer ≡ 516
    → Stored (only_acked s from block (a ∷ b ∷ x ∷ y ∷ q)) st from next ps inbox out
    → (out.2.file
        ≡ some (record st {
          written = st.written ++ stored_once s.beyond (overlay q (drop 4 s.m_buffer)) ps;
          room = st.room - space (payloads ps);
        }))
      × (out.2.outbox
          ≡ s.outbox ++ (record { to = from; payload = ack_packet block } ∷ answers from next ps))
after_repeat a b x y q s st from next block ps inbox out hb h =
    let (code, number, rest) = get16_header a b x y q s.m_buffer hb in
    (rw rest at h.content, h.acked ∙ append_assoc s.outbox _ _)

write_rounds-Stored :
    (s : Server) (st : Stream) (from next : ℕ) (ps : List Packet) (inbox : List Recv)
    → s.sends ≡ []
    → s.file ≡ some st
    → length s.m_buffer ≡ 516
    → IsSending next ps
    → next + length (payloads ps) ≤ 65536
    → space (payloads ps) ≤ st.room
    → Stored s st from next ps inbox (write_rounds (sent from next ps ++ inbox) next s)
write_rounds-Stored s st from next [] inbox hs hf hb hp hn hr = absurd hp
write_rounds-Stored s st from next (repeated k q ∷ ps) inbox hs hf hb hp hn hr =
    let d = data_packet k q in
    let step = step-repeated s from next k q hs hb hp.0 (omega (arith, hp.0)) hp.1 in
    let ih =
      write_rounds-Stored (only_acked s from k d) st from next ps inbox hs hf
        (length-overlay d s.m_buffer ∙ hb) hp.2 hn hr in
    let (content, acked) = after_repeat 0 3 (hi k) (lo k) q s st from next k ps inbox _ hb ih in
    rw (write_rounds-go _ (sent from next ps ++ inbox) next next s (only_acked s from k d) step)
      (record {
        succeeds = ih.succeeds;
        unread = ih.unread;
        content = content;
        acked = acked;
        same_closed = ih.same_closed;
      })
write_rounds-Stored s st from next (request x y q ∷ ps) inbox hs hf hb hp hn hr =
    let d = hi wrq ∷ lo wrq ∷ x ∷ y ∷ q in
    let step = step-request s from next x y q hp.0 hs hb hp.1 in
    let ih =
      write_rounds-Stored (only_acked s from 0 d) st from next ps inbox hs hf
        (length-overlay d s.m_buffer ∙ hb) hp.2 hn hr in
    let (content, acked) = after_repeat 0 2 x y q s st from next 0 ps inbox _ hb ih in
    rw (write_rounds-go _ (sent from next ps ++ inbox) next next s (only_acked s from 0 d) step)
      (record {
        succeeds = ih.succeeds;
        unread = ih.unread;
        content = content;
        acked = acked;
        same_closed = ih.same_closed;
      })
write_rounds-Stored s st from next (due p ∷ []) inbox hs hf hb hp hn hr =
    let step = step-data s from next p st hs hf hb (omega arith) (omega arith) (omega arith) in
    let last =
      write_rounds-stop _ inbox next s (taken s from next p st) ok
        (step ∙ rw (lt→ltb (length p) 512 hp)) in
    rw last (record {
      succeeds = refl;
      unread = refl;
      content = ground (arith, drop-plus next p s.m_buffer);
      acked = refl;
      same_closed = refl;
    })
write_rounds-Stored s st from next (due p ∷ q ∷ ps) inbox hs hf hb hp hn hr =
    let step = step-data s from next p st hs hf hb (omega arith) (omega arith) (omega arith) in
    let ih =
      write_rounds-Stored (taken s from next p st) _ from (next + 1) (q ∷ ps) inbox hs refl
        (omega (arith, length-filled next p s.m_buffer)) hp.1 (omega arith) (omega arith) in
    let first =
      write_rounds-go _ (sent from (next + 1) (q ∷ ps) ++ inbox) next (next + 1) s
        (taken s from next p st) (step ∙ rw (le→ltb_false (length p) 512 (omega arith))) in
    rw first (record {
      succeeds = ih.succeeds;
      unread = ih.unread;
      content =
          ih.content
          ∙ simp
              (
                drop-plus next p s.m_buffer,
                overlay-eq-append p (drop 4 s.m_buffer) (omega (arith, length-drop 4 s.m_buffer)),
                append_assoc,
              )
              (ground arith);
      acked = ih.acked ∙ append_assoc s.outbox _ _;
      same_closed = ih.same_closed;
    })

-- A client sends a file block by block, in order and in fewer than 65536 blocks, and may at any time
-- send a full block again that has passed, and before the first block its request. No `sendto`
-- fails. Then each packet is acknowledged with its number, the request with 0, the transfer
-- succeeds and reads nothing else, and the file holds each block once, in order, with one byte more
-- behind it.
pub process_write-Stored :
    (s : Server) (st : Stream) (from : ℕ) (ps : List Packet) (inbox : List Recv)
    → s.sends ≡ []
    → s.file ≡ some st
    → length s.m_buffer ≡ 516
    → IsSending 1 ps
    → length (payloads ps) < 65536
    → space (payloads ps) ≤ st.room
    → Stored s st from 1 ps inbox (process_write (sent from 1 ps ++ inbox) s)
unfolding process_write
process_write-Stored s st from ps inbox hs hf hb hp hn hr =
    write_rounds-Stored s st from 1 ps inbox hs hf hb hp (omega arith) hr
