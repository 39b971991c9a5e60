-- ===== src/Tftp/RoundTrip.antt =====
-- A file that goes to the server of components/internals/esp32/tftp_server.c and comes back.
use esp32_berry_lang.Base.{
  ℕ, suc, ◌+◌, codes, ◌≤◌, ◌<◌, Bytes, List, [], ◌∷◌, ◌++◌, some, length, take, drop, overlay, ltb,
  ◌≡◌, ap, sym, ◌∙◌, arith, length-append, take-append, drop-append, take_all, drop_all, drop-drop,
  Bool-cases, inl, inr, ltb_false→le, tests, if◌then◌else◌,
}
use esp32_berry_lang.Stdio.{Stream}
use esp32_berry_lang.Tftp.Machine.{Recv, Server}
use esp32_berry_lang.Tftp.Data.{head_or}
use esp32_berry_lang.Tftp.Wire.{rrq, wrq}
use esp32_berry_lang.Tftp.Machine.{ok, datagram}
use esp32_berry_lang.Tftp.Data.{Open}
use esp32_berry_lang.Tftp.Write.Upload.{space}
use esp32_berry_lang.Tftp.Write.Repeats.{
  Packet, due, repeated, request, sent, payloads, IsSending, stored_once,
}
use esp32_berry_lang.Tftp.Read.Download.{Chunks, last, more, ack_replies}
use esp32_berry_lang.Tftp.Request.{Run, done, fault, out_of_fuel}
use esp32_berry_lang.Tftp.Request.Named.{IsText, request_packet}
use esp32_berry_lang.Tftp.Task.{run}
use esp32_berry_lang.Tftp.Session.{Served, run-Served}
use esp32_berry_lang.Tftp.Session.Download.{Fetched, run-Fetched}

-- The last bytes of a file, at most 512 of them, as blocks: a full one is followed by an empty one.
abbrev pub last_blocks : Bytes → List Bytes
last_blocks l = if ltb (length l) 512 then l ∷ [] else l ∷ [] ∷ []

-- The blocks that come back: those that were sent, once each, with one byte more at the end of the
-- last. That byte is what the buffer `d`, or the heap behind it, holds behind the block.
abbrev pub blocks_back : ℕ → Bytes → List Packet → List Bytes
blocks_back beyond d [] = []
blocks_back beyond d (due p ∷ []) = last_blocks (p ++ (head_or (drop (length p) d) beyond ∷ []))
blocks_back beyond d (due p ∷ q ∷ ps) = p ∷ blocks_back beyond (overlay p d) (q ∷ ps)
blocks_back beyond d (repeated k q ∷ ps) = blocks_back beyond (overlay q d) ps
blocks_back beyond d (request x y q ∷ ps) = blocks_back beyond (overlay q d) ps

more_at :
    (l p l' : Bytes) {ps : List Bytes}
    → 512 ≤ length l
    → take 512 l ≡ p
    → drop 513 l ≡ l'
    → Chunks l' ps
    → Chunks l (p ∷ ps)
more_at l p l' h e e' c = rw (← e) (more h (rw e' c))

last_blocks-Chunks : (l : Bytes) → length l ≤ 512 → Chunks l (last_blocks l)
last_blocks-Chunks l h = elim (Bool-cases (ltb (length l) 512)) [
  | inl small ↦ rw small (last (omega (tests, small)))
  | inr full ↦
      let n = ltb_false→le (length l) 512 full in
      rw full
        (more_at l l [] n (take_all 512 l h) (drop_all 513 l (omega arith)) (last (omega arith)))
]

drop_end : (p : Bytes) (x : ℕ) (rest : Bytes) → length p ≡ 512 → drop 513 (p ++ (x ∷ rest)) ≡ rest
drop_end p x rest h =
    sym (drop-drop 1 512 (p ++ (x ∷ rest))) ∙ ap (drop 1) (drop-append 512 p (x ∷ rest) (sym h))

stored_once-Chunks :
    (beyond next : ℕ) (d : Bytes) (ps : List Packet)
    → IsSending next ps
    → Chunks (stored_once beyond d ps) (blocks_back beyond d ps)
stored_once-Chunks beyond next d [] h = absurd h
stored_once-Chunks beyond next d (due p ∷ []) h =
    last_blocks-Chunks (p ++ (head_or (drop (length p) d) beyond ∷ []))
      (omega (arith, length-append p (head_or (drop (length p) d) beyond ∷ [])))
stored_once-Chunks beyond next d (due p ∷ q ∷ ps) h =
    let x = head_or (drop (length p) d) beyond in
    let rest = stored_once beyond (overlay p d) (q ∷ ps) in
    more_at (p ++ (x ∷ rest)) p rest (omega (arith, length-append p (x ∷ rest), h.0))
      (take-append 512 p (x ∷ rest) (sym h.0)) (drop_end p x rest h.0)
      (stored_once-Chunks beyond (next + 1) (overlay p d) (q ∷ ps) h.1)
stored_once-Chunks beyond next d (repeated k q ∷ ps) h =
    stored_once-Chunks beyond next (overlay q d) ps h.2
stored_once-Chunks beyond next d (request x y q ∷ ps) h =
    stored_once-Chunks beyond next (overlay q d) ps h.2

-- What the file then holds, as it stands in `closed`.
stored-written :
    (s t : Server) (st kept : Stream) (from : ℕ) (d : Bytes) (ps : List Packet)
    (inbox rest : List Recv) (out : Run)
    → Served s st from d ps inbox out
    → out ≡ done ok rest t
    → t.closed ≡ kept ∷ s.closed
    → kept.written ≡ st.written ++ stored_once s.beyond (drop 4 (overlay d s.m_buffer)) ps
stored-written s t st kept from d ps inbox rest out h e c =
    ap first_written (sym c ∙ ap closed_by (sym e ∙ h.returned) ∙ h.stored)
  where
    first_written : List Stream → Bytes
    first_written [] = []
    first_written (f ∷ fs) = f.written

    closed_by : Run → List Stream
    closed_by (done c i a) = a.closed
    closed_by fault = []
    closed_by out_of_fuel = []

-- Let the server have a socket and a buffer of 516 bytes in both calls, no `sendto` fail, and the
-- file have room. A client has a file written to an empty one, in one call of `TFTP_run`, sending it in order, in
-- fewer than 65536 blocks, and perhaps blocks and its request again. In a later call a client reads
-- the same file, which is opened with what was stored, and acknowledges each block. Then that call
-- returns with success, and the client gets every block as it was sent but the last, which has one
-- byte more: the byte stored behind each block is the one that is dropped.
pub run-Served-Fetched :
    (open_file : Open) (fuel fuel' sock sock' from from' : ℕ) (name mode mode' : Bytes)
    (st kept opened : Stream) (ps : List Packet) (inbox inbox' rest : List Recv) (s t r : Server)
    → s.m_sock ≡ some sock
    → s.sends ≡ []
    → length s.m_buffer ≡ 516
    → IsText name
    → IsText mode
    → length (request_packet wrq name mode) ≤ 516
    → open_file name (codes "w") ≡ some st
    → st.written ≡ []
    → IsSending 1 ps
    → length (payloads ps) < 65536
    → space (payloads ps) ≤ st.room
    → let d = request_packet wrq name mode in
      run open_file (suc fuel) (datagram from d ∷ (sent from 1 ps ++ inbox)) s ≡ done ok rest t
      → t.closed ≡ kept ∷ s.closed
      → (open_again : Open) → open_again name (codes "r") ≡ some opened
      → opened.rest ≡ kept.written
      → r.m_sock ≡ some sock'
      → r.sends ≡ []
      → length r.m_buffer ≡ 516
      → IsText mode'
      → length (request_packet rrq name mode') ≤ 516
      → let blocks = blocks_back s.beyond (drop 4 (overlay d s.m_buffer)) ps in
        Fetched r from' blocks inbox' (
          run open_again
            (suc fuel')
            (datagram from' (request_packet rrq name mode')
              ∷ (ack_replies from' 1 blocks ++ inbox'))
            r)
run-Served-Fetched open_file fuel fuel' sock sock' from from' name mode mode' st kept opened ps
      inbox inbox' rest s t r hk hs hb hn hm hl ho hw hp hc hr e c open_again ha again rk rs rb hm'
      hl' =
    let d = request_packet wrq name mode in
    let d4 = drop 4 (overlay d s.m_buffer) in
    let served =
      run-Served open_file fuel sock from name mode st ps inbox s hk hs hb hn hm hl ho hp hc hr in
    let content : opened.rest ≡ stored_once s.beyond d4 ps =
      again
      ∙ stored-written s t st kept from d ps inbox rest _ served e c
      ∙ ap (◌++ stored_once s.beyond d4 ps) hw in
    run-Fetched open_again fuel' sock' from' name mode' opened inbox' r rk rs rb hn hm' hl' ha
      (rw (← content) at (stored_once-Chunks s.beyond 1 d4 ps hp))
