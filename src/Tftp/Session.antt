-- ===== src/Tftp/Session.antt =====
-- A client's whole exchange with the server of components/internals/esp32/tftp_server.c: a request, the
-- transfer, and the closing of the file, in one call of `TFTP_run`.
pub mod Download
pub mod Silent
use esp32_berry_lang.Base.{
  ℕ, suc, ◌+◌, ◌-◌, ◌≤◌, ◌<◌, Bytes, List, [], ◌∷◌, ◌++◌, some, length, drop, overlay, ◌≡◌, refl,
  ap, sym, ◌∙◌, arith, length-append, length-drop, length-overlay, append_assoc, ltb, codes, ◌==◌,
  if◌then◌else◌, le→ltb_false, ◌&&◌, false, Option, none,
}
use esp32_berry_lang.Base.Int.{pos, ltb_ℤ}
use esp32_berry_lang.Stdio.{Stream}
use esp32_berry_lang.Tftp.Wire.{rrq, wrq, get16}
use esp32_berry_lang.Tftp.Machine.{
  Code, ok, failed, again, Recv, lost, datagram, Sent, Server, ack_packet, recv, send_ack,
}
use esp32_berry_lang.Tftp.Machine.Sends.{send_ack_lem}
use esp32_berry_lang.Tftp.Data.{Open, on_read, on_write, on_close}
use esp32_berry_lang.Tftp.Write.{process_write}
use esp32_berry_lang.Tftp.Write.Repeats.{
  Packet, sent, answers, payloads, IsSending, stored_once, Stored, process_write-Stored,
}
use esp32_berry_lang.Tftp.Write.Steps.{recv_short}
use esp32_berry_lang.Tftp.Write.Upload.{space}
use esp32_berry_lang.Tftp.Request.{
  Run, done, strings, accept_wrq, answer_wrq, named_wrq, parse_wrq, serve_wrq, dispatch, rq_rounds,
  parse_rq,
}
use esp32_berry_lang.Tftp.Request.Rounds.{dispatch_read, dispatch_write, round_ends}
use esp32_berry_lang.Tftp.Request.Ends.{get16-overlay}
use esp32_berry_lang.Tftp.Request.Named.{IsText, request_packet, strings_lem}
use esp32_berry_lang.Tftp.Task.{received, run}

-- The state once a request has come in.
abbrev pub asked : Server → ℕ → Bytes → Server
asked s from d = record s {
  m_client = from;
  m_buffer = overlay d s.m_buffer;
  m_data_size = pos (length d);
}

-- The state in which the transfer of an upload begins.
abbrev pub accepted : Server → ℕ → Bytes → Stream → Server
accepted s from d st = record (asked s from d) {
  file = some st;
  outbox = s.outbox ++ (record { to = from; payload = ack_packet 0 } ∷ []);
}

-- No option stands behind the mode, and the request is acknowledged.
accept_wrq_plain :
    (s : Server) (d ptr : Bytes)
    → s.sends ≡ []
    → length d + length ptr ≡ length s.m_buffer
    → s.m_data_size ≡ pos (length d)
    → accept_wrq ptr s
      ≡ record s { outbox = s.outbox ++ (record { to = s.m_client; payload = ack_packet 0 } ∷ []) }
unfolding accept_wrq
accept_wrq_plain s d ptr hs hl hd = ground (arith, send_ack_lem 0 s hs)

pub parse_wrq_lem :
    (open_file : Open) (s : Server) (from : ℕ) (name mode : Bytes) (st : Stream)
    → s.sends ≡ []
    → IsText name
    → IsText mode
    → length (request_packet wrq name mode) ≤ length s.m_buffer
    → open_file name (codes "w") ≡ some st
    → parse_wrq open_file (asked s from (request_packet wrq name mode))
      ≡ some (ok, accepted s from (request_packet wrq name mode) st)
unfolding parse_wrq named_wrq answer_wrq on_write
parse_wrq_lem open_file s from name mode st hs hn hm hl ho =
    let d = request_packet wrq name mode in
    let ptr = drop (length d) s.m_buffer in
    let opened : Server = record (asked s from d) { file = some st } in
    ap (λ found. named_wrq open_file found (asked s from d))
      (strings_lem wrq name mode s.m_buffer (asked s from d) hn hm hl refl)
    ∙ rw ho (
        ap (λ t. some (ok, t))
          (accept_wrq_plain opened d ptr hs
            (omega (arith, length-drop (length d) s.m_buffer, length-overlay d s.m_buffer, hl))
            refl))

on_close_lem :
    (s : Server) (st : Stream) → s.file ≡ some st → on_close s ≡ record s { closed = st ∷ s.closed }
unfolding on_close
on_close_lem s st h =
    ap
      (λ (f : Option Stream). elim f [
        | none ↦ s
        | some kept ↦ record s { closed = kept ∷ s.closed }
      ])
      h

-- What has become of an upload that was asked for with the packet `d`.
pub record Served (s : Server) (st : Stream) (from : ℕ) (d : Bytes) (ps : List Packet)
    (inbox : List Recv) (out : Run) : Type 0 where
  pub after : Server
  pub returned : out ≡ done ok inbox after
  pub stored :
      after.closed
      ≡ record st {
        written = st.written ++ stored_once s.beyond (drop 4 (overlay d s.m_buffer)) ps;
        room = st.room - space (payloads ps);
      }
        ∷ s.closed
  pub acked :
      after.outbox ≡ s.outbox ++ (record { to = from; payload = ack_packet 0 } ∷ answers from 1 ps)

serve_wrq_lem :
    (s : Server) (st : Stream) (from : ℕ) (d : Bytes) (ps : List Packet) (inbox : List Recv)
    (r : List Recv)
    → Stored (accepted s from d st) st from 1 ps inbox (process_write r (accepted s from d st))
    → Served s st from d ps inbox (serve_wrq r (some (ok, accepted s from d st)))
unfolding serve_wrq
serve_wrq_lem s st from d ps inbox r h =
    let (c, rest, t) = process_write r (accepted s from d st) in
    let closes = on_close_lem t _ h.content in
    record {
      after = on_close t;
      returned = rw (h.succeeds, h.unread) refl;
      stored = rw (closes, h.same_closed) refl;
      acked = rw closes (h.acked ∙ append_assoc s.outbox _ _);
    }

received_lem :
    (open_file : Open) (fuel n : ℕ) (inbox : List Recv) (s : Server)
    → s.m_data_size ≡ pos n
    → received open_file fuel inbox s ≡ parse_rq open_file fuel inbox s
unfolding received
received_lem open_file fuel n inbox s h = ground arith

pub run_datagram :
    (open_file : Open) (fuel sock from : ℕ) (d : Bytes) (inbox : List Recv) (s : Server)
    → s.m_sock ≡ some sock
    → length d ≤ 516
    → run open_file fuel (datagram from d ∷ inbox) s
      ≡ parse_rq open_file fuel inbox (asked s from d)
unfolding run
run_datagram open_file fuel sock from d inbox s hs hd =
    ap
      (λ (k : Option ℕ). elim k [
        | none ↦ received open_file fuel (datagram from d ∷ inbox) (recv (lost false) s)
        | some fd ↦ received open_file fuel inbox (recv (datagram from d) s)
      ])
      hs
    ∙ ap (received open_file fuel inbox) (recv_short s from d hd)
    ∙ received_lem open_file fuel (length d) inbox (asked s from d) refl

Served-path :
    {s : Server} {st : Stream} {from : ℕ} {d : Bytes} {ps : List Packet} {inbox : List Recv}
    {out out' : Run}
    → out' ≡ out
    → Served s st from d ps inbox out
    → Served s st from d ps inbox out'
Served-path e h = record {
  after = h.after;
  returned = e ∙ h.returned;
  stored = h.stored;
  acked = h.acked;
}

-- Let the server have a socket and a buffer of 516 bytes, and no `sendto` fail. A client asks for a
-- file to be written, by a packet of at most 516 bytes with a name and a mode and no option, and the
-- file can be opened and has room. It then sends the file in order, in fewer than 65536 blocks, and may
-- send again full blocks that have passed and its request before the first block. Then one call of
-- `TFTP_run` returns with success and has read these packets and no other. It has acknowledged the
-- request with 0 and each packet of the transfer, and has closed the file, which holds each block
-- once, in order, with one byte more behind it.
pub run-Served :
    (open_file : Open) (fuel sock from : ℕ) (name mode : Bytes) (st : Stream) (ps : List Packet)
    (inbox : List Recv) (s : Server)
    → s.m_sock ≡ some sock
    → s.sends ≡ []
    → length s.m_buffer ≡ 516
    → IsText name
    → IsText mode
    → length (request_packet wrq name mode) ≤ 516
    → open_file name (codes "w") ≡ some st
    → IsSending 1 ps
    → length (payloads ps) < 65536
    → space (payloads ps) ≤ st.room
    → let d = request_packet wrq name mode in
      Served s st from d ps inbox
        (run open_file (suc fuel) (datagram from d ∷ (sent from 1 ps ++ inbox)) s)
unfolding parse_rq rq_rounds serve_wrq
run-Served open_file fuel sock from name mode st ps inbox s hk hs hb hn hm hl ho hp hc hr =
    let d = request_packet wrq name mode in
    let r = sent from 1 ps ++ inbox in
    let a = accepted s from d st in
    let upload = serve_wrq_lem s st from d ps inbox r (
      process_write-Stored a st from ps inbox hs refl (length-overlay d s.m_buffer ∙ hb) hp hc
        hr) in
    Served-path
      (run_datagram open_file (suc fuel) sock from d r s hk hl
        ∙ round_ends open_file fuel failed r inbox (asked s from d) upload.after (
            dispatch_write open_file failed r (asked s from d)
              (get16-overlay 0 2 _ s.m_buffer (omega arith))
            ∙ ap (serve_wrq r)
                (parse_wrq_lem open_file s from name mode st hs hn hm (omega arith) ho)
            ∙ upload.returned)
        ∙ sym upload.returned)
      upload
