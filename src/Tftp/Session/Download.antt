-- ===== src/Tftp/Session/Download.antt =====
-- A client that reads a file from the server of components/internals/esp32/tftp_server.c.
use esp32_berry_lang.Base.{
  ℕ, suc, ◌≤◌, Bytes, List, ◌∷◌, ◌++◌, Option, [], some, none, length, ◌≡◌, refl, ap, ◌∙◌, arith,
  length-overlay, codes,
}
use esp32_berry_lang.Stdio.{Stream}
use esp32_berry_lang.Tftp.Wire.{rrq}
use esp32_berry_lang.Tftp.Machine.{Code, ok, failed, Recv, datagram, Server}
use esp32_berry_lang.Tftp.Data.{Open, on_read, on_close}
use esp32_berry_lang.Tftp.Read.{process_read}
use esp32_berry_lang.Tftp.Read.Download.{Chunks, ack_replies, data_packets, process_read-Downloaded}
use esp32_berry_lang.Tftp.Read.Stale.{Answered, Answers, replies, sent_blocks, process_read-Fetches}
use esp32_berry_lang.Tftp.Request.{
  Run, done, out_of_fuel, named_rrq, answer_rrq, parse_rrq, serve_rrq, parse_rq,
}
use esp32_berry_lang.Tftp.Request.Ends.{get16-overlay}
use esp32_berry_lang.Tftp.Request.Rounds.{dispatch_read, round_ends}
use esp32_berry_lang.Tftp.Request.Named.{IsText, request_packet, strings_lem}
use esp32_berry_lang.Tftp.Session.{asked, run_datagram}
use esp32_berry_lang.Tftp.Task.{run}

abbrev reading : Server → ℕ → Bytes → Stream → Server
reading s from d st = record (asked s from d) { file = some st }

parse_rrq_lem :
    (open_file : Open) (s : Server) (from : ℕ) (name mode : Bytes) (st : Stream)
    → IsText name
    → IsText mode
    → length (request_packet rrq name mode) ≤ length s.m_buffer
    → open_file name (codes "r") ≡ some st
    → parse_rrq open_file (asked s from (request_packet rrq name mode))
      ≡ some (ok, reading s from (request_packet rrq name mode) st)
unfolding parse_rrq named_rrq answer_rrq on_read
parse_rrq_lem open_file s from name mode st hn hm hl ho =
    let d = request_packet rrq name mode in
    ap (λ found. named_rrq open_file found (asked s from d))
      (strings_lem rrq name mode s.m_buffer (asked s from d) hn hm hl refl)
    ∙ rw ho refl

on_close-outbox : (s : Server) → (on_close s).outbox ≡ s.outbox
unfolding on_close
on_close-outbox s = ground arith

-- What has become of a download that was asked for: the blocks have been sent.
pub record Fetched (s : Server) (from : ℕ) (ps : List Bytes) (inbox : List Recv) (out : Run)
    : Type 0 where
  pub after : Server
  pub returned : out ≡ done ok inbox after
  pub packets : after.outbox ≡ s.outbox ++ data_packets from 1 ps

served_rrq : Option (Code × List Recv × Server) → Run
served_rrq out = elim out [ none ↦ out_of_fuel | some (c, rest, t) ↦ done c rest (on_close t) ]

serve_rrq_lem :
    (s t : Server) (r inbox : List Recv)
    → process_read r s ≡ some (ok, inbox, t)
    → serve_rrq r (some (ok, s)) ≡ done ok inbox (on_close t)
unfolding serve_rrq served_rrq
serve_rrq_lem s t r inbox e = ap served_rrq e

-- A request to read whose transfer ends with success
run_rrq :
    (open_file : Open) (fuel sock from : ℕ) (name mode : Bytes) (st : Stream) (r inbox : List Recv)
    (s final : Server)
    → s.m_sock ≡ some sock
    → length s.m_buffer ≡ 516
    → IsText name
    → IsText mode
    → length (request_packet rrq name mode) ≤ 516
    → open_file name (codes "r") ≡ some st
    → let d = request_packet rrq name mode in
      process_read r (reading s from d st) ≡ some (ok, inbox, final)
      → run open_file (suc fuel) (datagram from d ∷ r) s ≡ done ok inbox (on_close final)
unfolding parse_rq
run_rrq open_file fuel sock from name mode st r inbox s final hk hb hn hm hl ho e =
    let d = request_packet rrq name mode in
    run_datagram open_file (suc fuel) sock from d r s hk hl
    ∙ round_ends open_file fuel failed r inbox (asked s from d) (on_close final) (
        dispatch_read open_file failed r (asked s from d)
          (get16-overlay 0 1 _ s.m_buffer (omega arith))
        ∙ ap (serve_rrq r) (parse_rrq_lem open_file s from name mode st hn hm (omega arith) ho)
        ∙ serve_rrq_lem (reading s from d st) final r inbox e)

-- Let the server have a socket and a buffer of 516 bytes, and no `sendto` fail. A client asks for a
-- file to be read, by a packet of at most 516 bytes with a name and a mode, the file can be opened,
-- and the client acknowledges each block in order. Then one call of `TFTP_run` returns with success, has read these packets and
-- no other, and has sent the chunks of the file as blocks numbered from 1; behind each full chunk of
-- 512 bytes the next byte of the file is dropped.
pub run-Fetched :
    (open_file : Open) (fuel sock from : ℕ) (name mode : Bytes) (st : Stream) {ps : List Bytes}
    (inbox : List Recv) (s : Server)
    → s.m_sock ≡ some sock
    → s.sends ≡ []
    → length s.m_buffer ≡ 516
    → IsText name
    → IsText mode
    → length (request_packet rrq name mode) ≤ 516
    → open_file name (codes "r") ≡ some st
    → Chunks st.rest ps
    → let d = request_packet rrq name mode in
      Fetched s from ps inbox
        (run open_file (suc fuel) (datagram from d ∷ (ack_replies from 1 ps ++ inbox)) s)
run-Fetched open_file fuel sock from name mode st {ps} inbox s hk hs hb hn hm hl ho hc =
    let d = request_packet rrq name mode in
    let read =
      process_read-Downloaded inbox (reading s from d st) st hc hs refl
        (length-overlay d s.m_buffer ∙ hb) in
    record {
      after = on_close read.final;
      returned =
          run_rrq open_file fuel sock from name mode st (ack_replies from 1 ps ++ inbox) inbox s
            read.final hk hb hn hm hl ho read.succeeds;
      packets = on_close-outbox read.final ∙ read.packets;
    }

-- The same where blocks have perhaps been sent more than once.
pub record Resent (s : Server) (from : ℕ) (cs : List Answered) (inbox : List Recv) (out : Run)
    : Type 0 where
  pub after : Server
  pub returned : out ≡ done ok inbox after
  pub packets : after.outbox ≡ s.outbox ++ sent_blocks from 1 cs

-- Let the server have a socket and a buffer of 516 bytes, and no `sendto` fail. A client asks for a
-- file to be read, by a packet of at most 516 bytes with a name and a mode, and the file can be
-- opened. The client acknowledges each block in order, and before that perhaps other numbers, at
-- most two for a block. Then one call of `TFTP_run` returns with success, has read these packets and
-- no other, and has sent the chunks of the file as blocks numbered from 1, each once more for every
-- acknowledgement of another number; behind each full chunk of 512 bytes the next byte of the file
-- is dropped.
pub run-Resent :
    (open_file : Open) (fuel sock from : ℕ) (name mode : Bytes) (st : Stream) {cs : List Answered}
    (inbox : List Recv) (s : Server)
    → s.m_sock ≡ some sock
    → s.sends ≡ []
    → length s.m_buffer ≡ 516
    → IsText name
    → IsText mode
    → length (request_packet rrq name mode) ≤ 516
    → open_file name (codes "r") ≡ some st
    → Answers 1 st.rest cs
    → let d = request_packet rrq name mode in
      Resent s from cs inbox
        (run open_file (suc fuel) (datagram from d ∷ replies from 1 cs inbox) s)
run-Resent open_file fuel sock from name mode st {cs} inbox s hk hs hb hn hm hl ho hc =
    let d = request_packet rrq name mode in
    let read =
      process_read-Fetches inbox (reading s from d st) st hc hs refl
        (length-overlay d s.m_buffer ∙ hb) in
    record {
      after = on_close read.final;
      returned =
          run_rrq open_file fuel sock from name mode st (replies from 1 cs inbox) inbox s read.final
            hk hb hn hm hl ho read.succeeds;
      packets = on_close-outbox read.final ∙ read.packets;
    }
