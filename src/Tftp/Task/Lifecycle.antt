-- ===== src/Tftp/Task/Lifecycle.antt =====
-- Starting and stopping the server, and what ends its task.
use esp32_berry_lang.Base.{
  ℕ, suc, Bytes, List, [], ◌∷◌, some, none, length, ◌≡◌, inl, inr, refl, arith, Option, Bool, true,
  false, Option-cases, min,
}
use esp32_berry_lang.Base.Int.{pos}
use esp32_berry_lang.Tftp.Machine.{ok, failed, Recv, datagram, Server, recv}
use esp32_berry_lang.Tftp.Data.{Open}
use esp32_berry_lang.Tftp.Request.{done, rq_rounds, parse_rq}
use esp32_berry_lang.Tftp.Request.Ends.{IsRequest}
use esp32_berry_lang.Tftp.Request.Total.{dispatch_unknown}
use esp32_berry_lang.Tftp.Task.{
  Os, ended, start, start_new, start_on, stop, received, run, task_rounds,
}

-- An open socket has a buffer of 516 bytes, and no socket has none.
pub record IsConsistent (s : Server) : Type 0 where
  pub buffered : (fd : ℕ) → s.m_sock ≡ some fd → length s.m_buffer ≡ 516
  pub freed : s.m_sock ≡ none → s.m_buffer ≡ []

-- `malloc(516)` gives 516 bytes, or NULL.
abbrev pub Allocates : Os → Type 0
Allocates os = (b : Bytes) → os.malloc ≡ some b → length b ≡ 516

start_on-IsConsistent :
    (fd : ℕ) (o : Option Bytes) (bound : Bool) (s : Server)
    → ((b : Bytes) → o ≡ some b → length b ≡ 516)
    → IsConsistent (start_on fd o bound s).1
unfolding start_on
start_on-IsConsistent fd none bound s a = record { buffered = λ k e. cc; freed = λ e. refl }
start_on-IsConsistent fd (some b) true s a = record { buffered = λ k e. a b refl; freed = λ e. cc }
start_on-IsConsistent fd (some b) false s a = record { buffered = λ k e. a b refl; freed = λ e. cc }

start_new-IsConsistent :
    (os : Os) (o : Option ℕ) (s : Server)
    → Allocates os
    → s.m_buffer ≡ []
    → IsConsistent (start_new os o s).1
unfolding start_new
start_new-IsConsistent os none s a e = record { buffered = λ k q. cc; freed = λ q. e }
start_new-IsConsistent os (some fd) s a e = start_on-IsConsistent fd os.malloc os.bind s a

start-none : (os : Os) (s : Server) → s.m_sock ≡ none → start os s ≡ start_new os os.socket s
unfolding start
start-none os s e = ground arith

start-some : (os : Os) (s : Server) (fd : ℕ) → s.m_sock ≡ some fd → start os s ≡ (ok, s)
unfolding start
start-some os s fd e = ground arith

-- `TFTP_start` keeps the buffer and the socket in step, whatever the system answers.
pub start-IsConsistent :
    (os : Os) (s : Server) → Allocates os → IsConsistent s → IsConsistent (start os s).1
unfolding start
start-IsConsistent os s a v = elim (Option-cases s.m_sock) [
  | inl e ↦ rw (start-none os s e) (start_new-IsConsistent os os.socket s a (v.freed e))
  | inr (fd, e) ↦ rw (start-some os s fd e) v
]

-- After `TFTP_stop` there is no socket and no buffer, and a new `TFTP_start` opens a new socket.
pub start-stop :
    (os : Os) (s : Server)
    → IsConsistent (stop s) × (start os (stop s) ≡ start_new os os.socket (stop s))
unfolding stop start
start-stop os s = (record { buffered = λ k e. cc; freed = λ e. refl }, refl)

-- `TFTP_start` returns 0, which its comment calls a start with success, also where `bind` has failed,
-- and the outcome is that of a start in which it has not.
pub start_bind :
    (sock : Option ℕ) (mem : Option Bytes) (bound : Bool) (s : Server)
    → start (record { socket = sock; malloc = mem; bind = bound }) s
      ≡ start (record { socket = sock; malloc = mem; bind = true }) s
unfolding start start_new start_on
start_bind sock mem bound s = ground arith

received_unknown :
    (open_file : Open) (fuel n : ℕ) (inbox : List Recv) (s : Server)
    → s.m_data_size ≡ pos n
    → ¬ IsRequest s.m_buffer
    → received open_file (suc fuel) inbox s ≡ done failed inbox s
unfolding received parse_rq rq_rounds
received_unknown open_file fuel n inbox s e h =
    ground (arith, dispatch_unknown open_file failed inbox s h)

run_unknown :
    (open_file : Open) (fuel from fd : ℕ) (d : Bytes) (inbox : List Recv) (s : Server)
    → s.m_sock ≡ some fd
    → ¬ IsRequest (recv (datagram from d) s).m_buffer
    → run open_file (suc fuel) (datagram from d ∷ inbox) s
      ≡ done failed inbox (recv (datagram from d) s)
unfolding run
run_unknown open_file fuel from fd d inbox s hs h = ground (
  arith,
  received_unknown open_file fuel (min (length d) 516) inbox (recv (datagram from d) s)
      (unfold recv in refl) h,
)

-- One datagram with an unknown command ends the whole task: the server stops, and what else comes in
-- is never read.
pub task_rounds_unknown :
    (open_file : Open) (fuel rounds from fd : ℕ) (d : Bytes) (inbox : List Recv) (s : Server)
    → s.m_sock ≡ some fd
    → ¬ IsRequest (recv (datagram from d) s).m_buffer
    → task_rounds open_file (suc fuel) (suc rounds) (datagram from d ∷ inbox) s
      ≡ ended inbox (stop (recv (datagram from d) s))
unfolding task_rounds
task_rounds_unknown open_file fuel rounds from fd d inbox s hs h =
    rw (run_unknown open_file fuel from fd d inbox s hs h, task_rounds)
