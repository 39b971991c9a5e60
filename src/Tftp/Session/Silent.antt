-- ===== src/Tftp/Session/Silent.antt =====
-- A client that falls silent in the middle of an upload: what becomes of the task of
-- components/internals/esp32/tftp_server.c.
use esp32_berry_lang.Base.{
  ℕ, suc, ◌≤◌, Bool, Bytes, List, [], ◌∷◌, ◌++◌, some, length, overlay, ◌≡◌, refl, ap, ◌∙◌, arith,
  length-overlay, codes, inl, inr,
}
use esp32_berry_lang.Base.Int.{pos}
use esp32_berry_lang.Stdio.{Stream}
use esp32_berry_lang.Tftp.Wire.{wrq, data_cmd, get16}
use esp32_berry_lang.Tftp.Machine.{Code, ok, failed, Recv, lost, datagram, Server, recv}
use esp32_berry_lang.Tftp.Data.{Open, on_close}
use esp32_berry_lang.Tftp.Write.{stop, go, data_step, write_step, write_rounds, process_write}
use esp32_berry_lang.Tftp.Write.Rounds.{Verdict-cases, write_rounds-stop, write_rounds-go}
use esp32_berry_lang.Tftp.Write.Steps.{get16_header, recv_short}
use esp32_berry_lang.Tftp.Request.{done, serve_wrq, dispatch, rq_rounds, parse_rq}
use esp32_berry_lang.Tftp.Request.Ends.{get16-overlay, write_step-buffer}
use esp32_berry_lang.Tftp.Request.Rounds.{dispatch_write}
use esp32_berry_lang.Tftp.Request.Named.{IsText, request_packet}
use esp32_berry_lang.Tftp.Session.{asked, accepted, parse_wrq_lem, run_datagram}
use esp32_berry_lang.Tftp.Task.{run, task_rounds, ended, stop as stop_server}

-- A full DATA packet with any block number, from any client
pub record Full : Type 0 where
  pub from : ℕ
  pub high : ℕ
  pub low : ℕ
  pub payload : Bytes
  pub full : length payload ≡ 512

abbrev pub packets : List Full → List Recv
packets [] = []
packets (f ∷ fs) = datagram f.from (0 ∷ 3 ∷ f.high ∷ f.low ∷ f.payload) ∷ packets fs

step-full :
    (next : ℕ) (s : Server)
    → get16 s.m_buffer 0 ≡ data_cmd
    → s.m_data_size ≡ pos 516
    → (n : ℕ) × (t : Server) × (write_step next s ≡ go n t) × (t.m_buffer ≡ s.m_buffer)
unfolding write_step data_step
step-full next s hc hd = elim (Verdict-cases (write_step next s)) [
  | inl (c, t, e) ↦ absurd (ground arith)
  | inr (n, t, e) ↦ (n, t, e, rw e at (write_step-buffer next s))
]

step-lost :
    (next : ℕ) (e : Bool) (s : Server)
    → write_step next (recv (lost e) s) ≡ stop failed (recv (lost e) s)
unfolding write_step recv
step-lost next e s = refl

-- Where the transfer ends does not depend on what comes after the loss.
write_rounds-lost :
    (fs : List Full) (e : Bool) (next : ℕ) (s : Server)
    → length s.m_buffer ≡ 516
    → (t : Server) × ((rest : List Recv)
        → write_rounds (packets fs ++ (lost e ∷ rest)) next s ≡ (failed, rest, t))
write_rounds-lost [] e next s hb =
    (recv (lost e) s, λ rest. write_rounds-stop (lost e) rest next s _ failed (step-lost next e s))
write_rounds-lost (f ∷ fs) e next s hb =
    let d = 0 ∷ 3 ∷ f.high ∷ f.low ∷ f.payload in
    let come : Server = record s {
      m_client = f.from;
      m_buffer = overlay d s.m_buffer;
      m_data_size = pos (length d);
    } in
    let (code, block, behind) = get16_header 0 3 f.high f.low f.payload s.m_buffer hb in
    let (n, t, step, same) = step-full next come code (ap pos (omega (arith, f.full))) in
    let (u, ends) =
      write_rounds-lost fs e n t (ap length same ∙ length-overlay d s.m_buffer ∙ hb) in
    (
      u,
      λ rest.
          write_rounds-go _ (packets fs ++ (lost e ∷ rest)) next n s t
            (ap (write_step next) (recv_short s f.from d (omega (arith, f.full))) ∙ step)
          ∙ ends rest,
    )

serve_wrq-failed :
    (r rest : List Recv) (s t : Server)
    → process_write r s ≡ (failed, rest, t)
    → serve_wrq r (some (ok, s)) ≡ done failed rest (on_close t)
unfolding serve_wrq
serve_wrq-failed r rest s t e = rw e refl

round_fails :
    (open_file : Open) (fuel : ℕ) (result : Code) (inbox rest : List Recv) (s t : Server)
    → dispatch open_file result inbox s ≡ done failed rest t
    → rq_rounds open_file (suc fuel) result inbox s ≡ done failed rest t
unfolding rq_rounds
round_fails open_file fuel result inbox rest s t e = rw (e, rq_rounds) refl

run_fails :
    (open_file : Open) (fuel rounds : ℕ) (inbox rest : List Recv) (s t : Server)
    → run open_file fuel inbox s ≡ done failed rest t
    → task_rounds open_file fuel (suc rounds) inbox s ≡ ended rest (stop_server t)
unfolding task_rounds
run_fails open_file fuel rounds inbox rest s t e = rw (e, task_rounds) refl

-- Let the server have a socket and a buffer of 516 bytes, and no `sendto` fail. A client asks for a
-- file to be written, by a packet of at most 516 bytes with a name and a mode and no option, and the
-- file can be opened. Once any number of full DATA packets have come, with any numbers, and then
-- `recvfrom` fails, as it does after 30 seconds with no packet, the whole task ends: the server is
-- stopped, all that comes in after that is left unread, and the state is the one it ends in if nothing
-- comes.
pub task_rounds_silent :
    (open_file : Open) (fuel rounds sock from : ℕ) (name mode : Bytes) (st : Stream)
    (fs : List Full) (e : Bool) (rest : List Recv) (s : Server)
    → s.m_sock ≡ some sock
    → s.sends ≡ []
    → length s.m_buffer ≡ 516
    → IsText name
    → IsText mode
    → length (request_packet wrq name mode) ≤ 516
    → open_file name (codes "w") ≡ some st
    → let before = λ (after : List Recv).
      datagram from (request_packet wrq name mode) ∷ (packets fs ++ (lost e ∷ after)) in
      (t : Server) × (task_rounds open_file (suc fuel) (suc rounds) (before rest) s
        ≡ ended rest (stop_server t))
      × (task_rounds open_file (suc fuel) (suc rounds) (before []) s ≡ ended [] (stop_server t))
unfolding parse_rq process_write
task_rounds_silent open_file fuel rounds sock from name mode st fs e rest s hk hs hb hn hm hl ho =
    let d = request_packet wrq name mode in
    let a = accepted s from d st in
    let (t, ends) = write_rounds-lost fs e 1 a (length-overlay d s.m_buffer ∙ hb) in
    let ends_with : (after : List Recv)
        → task_rounds open_file (suc fuel) (suc rounds)
            (datagram from d ∷ (packets fs ++ (lost e ∷ after))) s
          ≡ ended after (stop_server (on_close t)) =
      λ after.
        let r = packets fs ++ (lost e ∷ after) in
        run_fails open_file (suc fuel) rounds (datagram from d ∷ r) after s (on_close t) (
          run_datagram open_file (suc fuel) sock from d r s hk hl
          ∙ round_fails open_file fuel failed r after (asked s from d) (on_close t) (
              dispatch_write open_file failed r (asked s from d)
                (get16-overlay 0 2 _ s.m_buffer (omega arith))
              ∙ ap (serve_wrq r)
                  (parse_wrq_lem open_file s from name mode st hs hn hm (omega arith) ho)
              ∙ serve_wrq-failed r after a t (ends after))) in
    (on_close t, ends_with rest, ends_with [])
