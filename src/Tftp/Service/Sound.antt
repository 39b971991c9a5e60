-- ===== src/Tftp/Service/Sound.antt =====
-- What holds of the server of components/internals/esp32/tftp_server.c and its tasks at any time.
use esp32_berry_lang.Base.{
  ℕ, Bytes, Bool, true, false, List, [], ◌∷◌, Option, none, some, length, get_elem?, set, ◌≡◌, refl,
  sym, ◌∙◌, arith, get_elem?-set_self, get_elem?-lt, get_elem?-append_front, ap,
}
use mathlib.Core.Option.{some_inj}
use esp32_berry_lang.Tftp.Machine.{Code, failed, ok, again, Server}
use esp32_berry_lang.Tftp.Data.{Open}
use esp32_berry_lang.Tftp.Request.{Run, done, fault, out_of_fuel}
use esp32_berry_lang.Tftp.Task.{Os, init, stop, run}
use esp32_berry_lang.Tftp.Task.Kept.{Keeps}
use esp32_berry_lang.Tftp.Task.Polls.{RunKeeps, run-Keeps}
use esp32_berry_lang.Tftp.Task.Lifecycle.{IsConsistent, Allocates, start-IsConsistent, start-stop}
use esp32_berry_lang.Tftp.Service.{
  Phase, created, polling, returned, deleted, Service, task_start, task_begin, task_next,
  after_round, task_round, task_delete, task_stop, Step, starts, begins, polls, stops, Reach, here,
  next,
}

-- Some task is in its loop.
abbrev pub Polls : List Phase → Type 0
Polls tasks = (i : ℕ) × (get_elem? tasks i ≡ some polling)

-- An open socket has a buffer of 516 bytes and a task that polls it; with no socket there is no
-- buffer.
pub record IsSound (s : Service) : Type 0 where
  pub consistent : IsConsistent s.server
  pub used : (fd : ℕ) → s.server.m_sock ≡ some fd → Polls s.tasks

stop-sock : (s : Server) → (stop s).m_sock ≡ none
unfolding stop
stop-sock s = refl

stopped-IsSound :
    (s : Server) (tasks : List Phase) (th : Option ℕ)
    → IsSound (record { server = stop s; tasks = tasks; th_tftp = th })
stopped-IsSound s tasks th = record {
  consistent = (start-stop (record { socket = none; malloc = none; bind = false }) s).0;
  used = λ fd e. cc (stop-sock s);
}

init-IsConsistent : (port : ℕ) (s : Server) → IsConsistent s → IsConsistent (init port s)
unfolding init
init-IsConsistent port s h = record { buffered = h.buffered; freed = h.freed }

no_bytes : (b : Bytes) → length b ≡ 0 → b ≡ []
no_bytes [] h = refl
no_bytes (x ∷ b) h = absurd (omega arith)

Keeps-IsConsistent : {s t : Server} → Keeps s t → IsConsistent s → IsConsistent t
Keeps-IsConsistent {t = t} k h = record {
  buffered = λ fd e. k.size ∙ h.buffered fd (sym k.sock ∙ e);
  freed = λ e. no_bytes t.m_buffer (k.size ∙ ap length (h.freed (sym k.sock ∙ e)));
}

task_start-IsSound : (m : Bool) (s : Service) → IsSound s → IsSound (task_start m s)
unfolding task_start
task_start-IsSound false s h = h
task_start-IsSound true s h = record {
  consistent = h.consistent;
  used = λ fd e.
      let (i, p) = h.used fd e in
      (i, get_elem?-append_front s.tasks (created ∷ []) i (get_elem?-lt s.tasks i polling p) ∙ p);
}

task_begin-IsSound :
    (os : Os) (i : ℕ) (s : Service)
    → get_elem? s.tasks i ≡ some created
    → Allocates os
    → IsSound s
    → IsSound (task_begin os i s)
unfolding task_begin
task_begin-IsSound os i s e a h = record {
  consistent =
      start-IsConsistent os (init 0 s.server) a (init-IsConsistent 0 s.server h.consistent);
  used = λ fd q. (i, get_elem?-set_self s.tasks i polling (get_elem?-lt s.tasks i created e));
}

task_next-IsSound :
    (i : ℕ) (s : Service) (c : Code) (t : Server)
    → Keeps s.server t
    → IsSound s
    → IsSound (task_next i s c t)
unfolding task_next
task_next-IsSound i s failed t k h = stopped-IsSound t (set s.tasks i returned) s.th_tftp
task_next-IsSound i s ok t k h = record {
  consistent = Keeps-IsConsistent k h.consistent;
  used = λ fd e. h.used fd (sym k.sock ∙ e);
}
task_next-IsSound i s again t k h = record {
  consistent = Keeps-IsConsistent k h.consistent;
  used = λ fd e. h.used fd (sym k.sock ∙ e);
}

after_round-IsSound :
    (i : ℕ) (s t : Service) (r : Run)
    → RunKeeps s.server r
    → IsSound s
    → after_round i s r ≡ some t
    → IsSound t
unfolding after_round
after_round-IsSound i s t (done c rest u) k h e =
    rw (← some_inj.0 e) (task_next-IsSound i s c u k h)
after_round-IsSound i s t fault k h e = cc
after_round-IsSound i s t out_of_fuel k h e = cc

task_delete-IsSound :
    (th : Option ℕ) (s : Service) → IsSound (task_delete th (record s { server = stop s.server })).0
unfolding task_delete
task_delete-IsSound none s = stopped-IsSound s.server s.tasks s.th_tftp
task_delete-IsSound (some i) s = stopped-IsSound s.server (set s.tasks i deleted) s.th_tftp

Step-IsSound : {open_file : Open} {s t : Service} → Step open_file s t → IsSound s → IsSound t
Step-IsSound {s} (starts m) h = task_start-IsSound m s h
Step-IsSound {s} (begins os i e a) h = task_begin-IsSound os i s e a h
Step-IsSound {open_file} {s} {t} (polls fuel inbox i e q) h =
    after_round-IsSound i s t (run open_file fuel inbox s.server)
      (run-Keeps open_file fuel inbox s.server) h (unfold task_round in q)
Step-IsSound {s} stops h = unfold task_stop in task_delete-IsSound s.th_tftp s

-- Whatever the network and the system do, and in whatever order tasks are started, take their rounds
-- and are stopped between rounds: an open socket always has a buffer of 516 bytes and a task that
-- polls it, and with no socket there is no buffer, if this holds at the start and `malloc` gives 516
-- bytes or NULL.
pub Reach-IsSound : {open_file : Open} {s t : Service} → IsSound s → Reach open_file s t → IsSound t
Reach-IsSound h here = h
Reach-IsSound h (next r st) = Step-IsSound st (Reach-IsSound h r)
