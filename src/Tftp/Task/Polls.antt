-- ===== src/Tftp/Task/Polls.antt =====
-- What a round of the loop of `TFTP_task` in components/internals/esp32/tftp_server.c keeps.
use esp32_berry_lang.Base.{
  ℕ, zero, suc, true, false, Bytes, List, [], ◌∷◌, Option, none, some, ◌==◌, if_both, codes,
}
use esp32_berry_lang.Base.Int.{ltb_ℤ, pos}
use esp32_berry_lang.Tftp.Wire.{get16, rrq, wrq, access_violation, file_not_found}
use esp32_berry_lang.Tftp.Machine.{Code, failed, ok, again, Recv, lost, Server, recv}
use esp32_berry_lang.Tftp.Data.{Open, on_read, on_write, on_close}
use esp32_berry_lang.Tftp.Write.{process_write}
use esp32_berry_lang.Tftp.Read.{process_read}
use esp32_berry_lang.Tftp.Request.{
  Run, done, fault, out_of_fuel, blksize_reply, strings, accept_wrq, answer_wrq, named_wrq,
  parse_wrq, answer_rrq, named_rrq, parse_rrq, serve_wrq, serve_rrq, dispatch, rq_rounds, parse_rq,
}
use esp32_berry_lang.Tftp.Task.{received, run}
use esp32_berry_lang.Tftp.Task.Kept.{
  Keeps, Keeps-refl, Keeps-trans, send_ack-Keeps, sendto-Keeps, send_error-Keeps, recv-Keeps,
  on_close-Keeps, on_write-Keeps, on_read-Keeps, write_rounds-Keeps, EndKeeps, EndKeeps-from,
  read_rounds-Keeps,
}

accept_wrq-Keeps : (ptr : Bytes) (s : Server) → Keeps s (accept_wrq ptr s)
unfolding accept_wrq
accept_wrq-Keeps ptr s = if_both (Keeps s) _ (sendto-Keeps blksize_reply s) (send_ack-Keeps 0 s)

abbrev AnswerKeeps : Server → Option (Code × Server) → Type 0
AnswerKeeps s none = Unit
AnswerKeeps s (some (c, t)) = Keeps s t

answer_wrq-Keeps :
    (ptr : Bytes) (c : Code) (s t : Server) → Keeps s t → AnswerKeeps s (answer_wrq ptr (c, t))
unfolding answer_wrq
answer_wrq-Keeps ptr failed s t h =
    Keeps-trans h (send_error-Keeps access_violation (codes "cannot open file") t)
answer_wrq-Keeps ptr ok s t h = Keeps-trans h (accept_wrq-Keeps ptr t)
answer_wrq-Keeps ptr again s t h = Keeps-trans h (accept_wrq-Keeps ptr t)

named_wrq-Keeps :
    (open_file : Open) (names : Option (Bytes × Bytes)) (s : Server)
    → AnswerKeeps s (named_wrq open_file names s)
unfolding named_wrq
named_wrq-Keeps open_file none s = tt
named_wrq-Keeps open_file (some (name, ptr)) s =
    answer_wrq-Keeps ptr (on_write open_file name s).0 s _ (on_write-Keeps open_file name s)

answer_rrq-Keeps : (c : Code) (s t : Server) → Keeps s t → AnswerKeeps s (answer_rrq (c, t))
unfolding answer_rrq
answer_rrq-Keeps failed s t h =
    Keeps-trans h (send_error-Keeps file_not_found (codes "cannot open file") t)
answer_rrq-Keeps ok s t h = h
answer_rrq-Keeps again s t h = h

named_rrq-Keeps :
    (open_file : Open) (names : Option (Bytes × Bytes)) (s : Server)
    → AnswerKeeps s (named_rrq open_file names s)
unfolding named_rrq
named_rrq-Keeps open_file none s = tt
named_rrq-Keeps open_file (some (name, ptr)) s =
    answer_rrq-Keeps (on_read open_file name s).0 s _ (on_read-Keeps open_file name s)

abbrev pub RunKeeps : Server → Run → Type 0
RunKeeps s (done c rest t) = Keeps s t
RunKeeps s fault = Unit
RunKeeps s out_of_fuel = Unit

serve_wrq-Keeps :
    (inbox : List Recv) (s : Server) (o : Option (Code × Server))
    → AnswerKeeps s o
    → RunKeeps s (serve_wrq inbox o)
unfolding serve_wrq process_write
serve_wrq-Keeps inbox s none h = tt
serve_wrq-Keeps inbox s (some (failed, t)) h = h
serve_wrq-Keeps inbox s (some (again, t)) h = h
serve_wrq-Keeps inbox s (some (ok, t)) h =
    Keeps-trans h (Keeps-trans (write_rounds-Keeps inbox 1 t) (on_close-Keeps _))

read_end-Keeps :
    (s : Server) (o : Option (Code × List Recv × Server))
    → EndKeeps s o
    → RunKeeps s (elim o [ none ↦ out_of_fuel | some (c, rest, t) ↦ done c rest (on_close t) ])
read_end-Keeps s none h = tt
read_end-Keeps s (some (c, rest, t)) h = Keeps-trans h (on_close-Keeps t)

serve_rrq-Keeps :
    (inbox : List Recv) (s : Server) (o : Option (Code × Server))
    → AnswerKeeps s o
    → RunKeeps s (serve_rrq inbox o)
unfolding serve_rrq process_read
serve_rrq-Keeps inbox s none h = tt
serve_rrq-Keeps inbox s (some (failed, t)) h = h
serve_rrq-Keeps inbox s (some (again, t)) h = h
serve_rrq-Keeps inbox s (some (ok, t)) h =
    read_end-Keeps s _ (EndKeeps-from h _ (read_rounds-Keeps _ 1 inbox t))

dispatch-Keeps :
    (open_file : Open) (result : Code) (inbox : List Recv) (s : Server)
    → RunKeeps s (dispatch open_file result inbox s)
unfolding dispatch parse_wrq parse_rrq
dispatch-Keeps open_file result inbox s =
    if_both (RunKeeps s) (get16 s.m_buffer 0 == wrq)
      (serve_wrq-Keeps inbox s _ (named_wrq-Keeps open_file (strings s) s))
      (if_both (RunKeeps s) (get16 s.m_buffer 0 == rrq)
        (serve_rrq-Keeps inbox s _ (named_rrq-Keeps open_file (strings s) s)) (Keeps-refl s))

RunKeeps-from : {s t : Server} → Keeps s t → (r : Run) → RunKeeps t r → RunKeeps s r
RunKeeps-from h (done c rest u) k = Keeps-trans h k
RunKeeps-from h fault k = tt
RunKeeps-from h out_of_fuel k = tt

-- The next look at a request, by what the `switch` left
next_look-Keeps :
    (open_file : Open) (fuel : ℕ) (s : Server) (r : Run)
    → RunKeeps s r
    → ((inbox : List Recv) (t : Server) → RunKeeps t (rq_rounds open_file fuel again inbox t))
    → RunKeeps s (elim r [
      | done c rest t ↦ elim c [
        | again ↦ rq_rounds open_file fuel again rest t
        | other ↦ done other rest t
      ]
      | fault ↦ fault
      | out_of_fuel ↦ out_of_fuel
    ])
next_look-Keeps open_file fuel s (done ok rest t) h ih = h
next_look-Keeps open_file fuel s (done failed rest t) h ih = h
next_look-Keeps open_file fuel s (done again rest t) h ih = RunKeeps-from h _ (ih rest t)
next_look-Keeps open_file fuel s fault h ih = tt
next_look-Keeps open_file fuel s out_of_fuel h ih = tt

rq_rounds-Keeps :
    (open_file : Open) (fuel : ℕ) (result : Code) (inbox : List Recv) (s : Server)
    → RunKeeps s (rq_rounds open_file fuel result inbox s)
unfolding rq_rounds
rq_rounds-Keeps open_file zero result inbox s = tt
rq_rounds-Keeps open_file (suc fuel) result inbox s =
    next_look-Keeps open_file fuel s (dispatch open_file result inbox s)
      (dispatch-Keeps open_file result inbox s)
      (λ rest t. rq_rounds-Keeps open_file fuel again rest t)

received-Keeps :
    (open_file : Open) (fuel : ℕ) (inbox : List Recv) (s : Server)
    → RunKeeps s (received open_file fuel inbox s)
unfolding received parse_rq
received-Keeps open_file fuel inbox s =
    if_both (RunKeeps s) (ltb_ℤ s.m_data_size (pos 0))
      (if_both (RunKeeps s) s.would_block (Keeps-refl s) (Keeps-refl s))
      (rq_rounds-Keeps open_file fuel failed inbox s)

received_after :
    (open_file : Open) (fuel : ℕ) (r : Recv) (inbox : List Recv) (s : Server)
    → RunKeeps s (received open_file fuel inbox (recv r s))
received_after open_file fuel r inbox s =
    RunKeeps-from (recv-Keeps r s) _ (received-Keeps open_file fuel inbox (recv r s))

-- By the socket and what the network brings
polled-Keeps :
    (open_file : Open) (fuel : ℕ) (sock : Option ℕ) (inbox : List Recv) (s : Server)
    → RunKeeps s (elim sock [
      | none ↦ received open_file fuel inbox (recv (lost false) s)
      | some fd ↦ elim inbox [
        | [] ↦ received open_file fuel [] (recv (lost true) s)
        | r ∷ rest ↦ received open_file fuel rest (recv r s)
      ]
    ])
polled-Keeps open_file fuel none inbox s = received_after open_file fuel (lost false) inbox s
polled-Keeps open_file fuel (some fd) [] s = received_after open_file fuel (lost true) [] s
polled-Keeps open_file fuel (some fd) (r ∷ inbox) s = received_after open_file fuel r inbox s

-- A round that comes to its end keeps the socket and the size of the buffer.
pub run-Keeps :
    (open_file : Open) (fuel : ℕ) (inbox : List Recv) (s : Server)
    → RunKeeps s (run open_file fuel inbox s)
unfolding run
run-Keeps open_file fuel inbox s = polled-Keeps open_file fuel s.m_sock inbox s
