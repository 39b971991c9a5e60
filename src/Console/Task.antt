-- ===== src/Console/Task.antt =====
-- `repl_task` of main/main.c: `BerryInit` with no program, and the loop over the lines typed. The
-- terminal and the history are in Console/Start.
use esp32_berry_lang.Base.{◌≡◌, refl, Bool, true, Bytes, List, codes, none}
use esp32_berry_lang.Events.{Stack}
use esp32_berry_lang.Events.Init.{Boot, first_threshold, berry_init, program, berry_init_lem}
use esp32_berry_lang.Console.{Machine, repl_lines}
use esp32_berry_lang.Console.Session.{idle, type_lines, Follows}
use esp32_berry_lang.Console.Refines.{repl_lines-Follows}

module _ {M : Type 0} (boot : Boot M) (vm : Machine M) where
  -- `repl_task`: the status that is printed, the stack and the machine
  unfoldable pub repl_task : List Bytes → Bool × Stack × M
  repl_task lines =
      let (status, s, m) = berry_init boot none in
      let (s', m') = repl_lines vm lines s m in (status, s', m')

  -- `repl_task` reports `BerryInit` as true, and over the lines typed it leaves the stack and the
  -- machine that the session comes to, from the machine on which `BerryInit` has sent the event
  -- `preinit`, unless a line exits or runs out of memory.
  pub repl_task-Follows :
      (lines : List Bytes)
      → let started =
          boot.after_event (codes "preinit") (boot.set_threshold first_threshold boot.vm_new) in
        ((repl_task lines).0 ≡ true)
        × Follows vm (type_lines vm lines idle started) ((repl_task lines).1, (repl_task lines).2)
  unfolding repl_task program
  repl_task-Follows lines = rw (berry_init_lem boot none) (refl, repl_lines-Follows vm lines _)
