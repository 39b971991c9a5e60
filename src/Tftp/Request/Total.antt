-- ===== src/Tftp/Request/Total.antt =====
-- Which requests come to an end, and which never do.
use esp32_berry_lang.Base.{
  ℕ, zero, suc, List, some, ◌≡◌, ◌≢◌, inl, inr, refl, arith, ◌∙◌, ◌==◌, Bool-cases,
}
use esp32_berry_lang.Tftp.Wire.{rrq, wrq, get16}
use esp32_berry_lang.Tftp.Machine.{Code, ok, failed, again, Recv, Server}
use esp32_berry_lang.Tftp.Data.{Open, on_close}
use esp32_berry_lang.Tftp.Write.{process_write}
use esp32_berry_lang.Tftp.Request.{
  Run, done, fault, out_of_fuel, parse_wrq, serve_wrq, dispatch, rq_rounds, parse_rq,
}
use esp32_berry_lang.Tftp.Request.Ends.{IsRequest, Resumes, on_close-buffer}

-- What the `switch` leaves: an end, or a call for another look with less of the network left.
abbrev Progress : List Recv → Run → Type 0
Progress inbox (done ok rest s) = Unit
Progress inbox (done failed rest s) = Unit
Progress inbox (done again rest s) = Resumes inbox rest s
Progress inbox fault = ⊥
Progress inbox out_of_fuel = ⊥

-- The run comes to an end with a result.
abbrev Returns : Run → Type 0
Returns r = (c : Code) × (rest : List Recv) × (t : Server) × (r ≡ done c rest t) × (c ≢ again)

pub dispatch_unknown :
    (open_file : Open) (result : Code) (inbox : List Recv) (s : Server)
    → ¬ IsRequest s.m_buffer
    → dispatch open_file result inbox s ≡ done result inbox s
unfolding dispatch
dispatch_unknown open_file result inbox s h = elim (Bool-cases (get16 s.m_buffer 0 == wrq)) [
  | inl w ↦ absurd (h (inr (ground arith)))
  | inr nw ↦ elim (Bool-cases (get16 s.m_buffer 0 == rrq)) [
    | inl r ↦ absurd (h (inl (ground arith)))
    | inr nr ↦ rw (nw, nr)
  ]
]

round_again :
    (open_file : Open) (fuel : ℕ) (result : Code) (inbox rest : List Recv) (s t : Server)
    → dispatch open_file result inbox s ≡ done again rest t
    → rq_rounds open_file (suc fuel) result inbox s ≡ rq_rounds open_file fuel again rest t
unfolding rq_rounds
round_again open_file fuel result inbox rest s t e = rw (e, rq_rounds)

-- Once `result` is 1 and the buffer holds an unknown command, no number of rounds is enough.
rq_rounds_endless :
    (open_file : Open) (fuel : ℕ) (inbox : List Recv) (s : Server)
    → ¬ IsRequest s.m_buffer
    → rq_rounds open_file fuel again inbox s ≡ out_of_fuel
unfolding rq_rounds
rq_rounds_endless open_file zero inbox s h = refl
rq_rounds_endless open_file (suc fuel) inbox s h =
    round_again open_file fuel again inbox inbox s s (dispatch_unknown open_file again inbox s h)
    ∙ rq_rounds_endless open_file fuel inbox s h

dispatch-wrq :
    (open_file : Open) (result : Code) (inbox rest : List Recv) (s s1 s2 : Server) (c : Code)
    → get16 s.m_buffer 0 ≡ wrq
    → parse_wrq open_file s ≡ some (ok, s1)
    → process_write inbox s1 ≡ (c, rest, s2)
    → dispatch open_file result inbox s ≡ done c rest (on_close s2)
unfolding dispatch serve_wrq
dispatch-wrq open_file result inbox rest s s1 s2 c hc hw hp = simp (hc, hw, hp)

-- An accepted upload in which a packet comes that is neither DATA nor a request never ends, whatever
-- the fuel: `TFTP_parse_rq` goes round with `result` at 1 and never reads the network again.
pub parse_rq_endless :
    (open_file : Open) (fuel : ℕ) (inbox rest : List Recv) (s s1 s2 : Server)
    → get16 s.m_buffer 0 ≡ wrq
    → parse_wrq open_file s ≡ some (ok, s1)
    → process_write inbox s1 ≡ (again, rest, s2)
    → ¬ IsRequest s2.m_buffer
    → parse_rq open_file fuel inbox s ≡ out_of_fuel
unfolding parse_rq rq_rounds
parse_rq_endless open_file zero inbox rest s s1 s2 hc hw hp hn = refl
parse_rq_endless open_file (suc fuel) inbox rest s s1 s2 hc hw hp hn =
    round_again open_file fuel failed inbox rest s (on_close s2)
      (dispatch-wrq open_file failed inbox rest s s1 s2 again hc hw hp)
    ∙ rq_rounds_endless open_file fuel rest (on_close s2) (rw (on_close-buffer s2) hn)
