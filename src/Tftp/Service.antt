-- ===== src/Tftp/Service.antt =====
-- The server as a task of the firmware: `TFTP_task_start`, `TFTP_task`, `TFTP_task_stop` of
-- components/internals/esp32/tftp_server.c. FreeRTOS is a parameter as far as the creation of a task
-- can fail; the other tasks run between two rounds of the loop, where `vTaskDelay` lets them.
pub mod Sound
use esp32_berry_lang.Base.{
  ℕ, Bool, true, false, List, [], ◌∷◌, ◌++◌, Option, none, some, length, get_elem?, set, ◌≡◌,
  if◌then◌else◌,
}
use esp32_berry_lang.Tftp.Machine.{Code, failed, Recv, Server}
use esp32_berry_lang.Tftp.Data.{Open}
use esp32_berry_lang.Tftp.Request.{Run, done, fault, out_of_fuel}
use esp32_berry_lang.Tftp.Task.{Os, init, start, stop, run}
use esp32_berry_lang.Tftp.Task.Lifecycle.{Allocates}

-- Where a task stands: before its first instruction, in the loop, past its end, or deleted.
pub data Phase : Type 0 where
  created polling returned deleted : Phase

-- The globals of the server, the tasks that have been created, and `thTFTP`, which numbers one of
-- them; NULL is `none`.
pub record Service : Type 0 where
  pub server : Server
  pub tasks : List Phase
  pub th_tftp : Option ℕ

-- `TFTP_task_start`; its result, whether there is memory for a task, is not looked at.
unfoldable pub task_start : Bool → Service → Service
task_start has_memory s =
    if has_memory
    then record s { tasks = s.tasks ++ (created ∷ []); th_tftp = some (length s.tasks) }
    else s

-- `TFTP_task` up to its loop
unfoldable pub task_begin : Os → ℕ → Service → Service
task_begin os i s = record s {
  server = (start os (init 0 s.server)).1;
  tasks = set s.tasks i polling;
}

-- `while (TFTP_run(false) >= 0)`, after the call: the next round, or the end of the task.
unfoldable pub task_next : ℕ → Service → Code → Server → Service
task_next i s failed server = record s { server = stop server; tasks = set s.tasks i returned }
task_next i s c server = record s { server = server }

-- A round of the loop, if it comes to its end
unfoldable pub after_round : ℕ → Service → Run → Option Service
after_round i s (done c rest server) = some (task_next i s c server)
after_round i s fault = none
after_round i s out_of_fuel = none

unfoldable pub task_round : Open → ℕ → List Recv → ℕ → Service → Option Service
task_round open_file fuel inbox i s = after_round i s (run open_file fuel inbox s.server)

-- `vTaskDelete`: NULL stands for the task that calls.
unfoldable pub task_delete : Option ℕ → Service → Service × Bool
task_delete none s = (s, false)
task_delete (some i) s = (record s { tasks = set s.tasks i deleted }, true)

-- `TFTP_task_stop`, and whether its caller goes on.
unfoldable pub task_stop : Service → Service × Bool
task_stop s = task_delete s.th_tftp (record s { server = stop s.server })

-- What may happen next, where `malloc` gives as many bytes as it is asked for, or NULL
pub data Step (open_file : Open) (s : Service) : Service → Type 0 where
  starts : (has_memory : Bool) → Step open_file s (task_start has_memory s)
  begins :
      (os : Os) (i : ℕ)
      → get_elem? s.tasks i ≡ some created
      → Allocates os
      → Step open_file s (task_begin os i s)
  polls :
      {t : Service} (fuel : ℕ) (inbox : List Recv) (i : ℕ)
      → get_elem? s.tasks i ≡ some polling
      → task_round open_file fuel inbox i s ≡ some t
      → Step open_file s t
  stops : Step open_file s (task_stop s).0

-- What has happened by now
pub data Reach (open_file : Open) (s : Service) : Service → Type 0 where
  here : Reach open_file s s
  next : {t u : Service} → Reach open_file s t → Step open_file t u → Reach open_file s u
