-- ===== src/Tftp/Request/Rounds.antt =====
-- One round of the loop of `TFTP_parse_rq`.
use esp32_berry_lang.Base.{ℕ, suc, ◌≡◌, refl, List}
use esp32_berry_lang.Tftp.Wire.{rrq, wrq, get16}
use esp32_berry_lang.Tftp.Machine.{Code, ok, Recv, Server}
use esp32_berry_lang.Tftp.Data.{Open}
use esp32_berry_lang.Tftp.Request.{
  parse_wrq, parse_rrq, done, serve_wrq, serve_rrq, dispatch, rq_rounds,
}

pub dispatch_read :
    (open_file : Open) (result : Code) (inbox : List Recv) (s : Server)
    → get16 s.m_buffer 0 ≡ rrq
    → dispatch open_file result inbox s ≡ serve_rrq inbox (parse_rrq open_file s)
unfolding dispatch
dispatch_read open_file result inbox s h = rw h refl

pub dispatch_write :
    (open_file : Open) (result : Code) (inbox : List Recv) (s : Server)
    → get16 s.m_buffer 0 ≡ wrq
    → dispatch open_file result inbox s ≡ serve_wrq inbox (parse_wrq open_file s)
unfolding dispatch
dispatch_write open_file result inbox s h = rw h refl

pub round_ends :
    (open_file : Open) (fuel : ℕ) (result : Code) (inbox rest : List Recv) (s t : Server)
    → dispatch open_file result inbox s ≡ done ok rest t
    → rq_rounds open_file (suc fuel) result inbox s ≡ done ok rest t
unfolding rq_rounds
round_ends open_file fuel result inbox rest s t e = rw (e, rq_rounds) refl
