-- ===== src/Tftp/Task.antt =====
-- The life of the server in components/internals/esp32/tftp_server.c: `TFTP_init`, `TFTP_start`,
-- `TFTP_run`, `TFTP_stop`, `TFTP_task`. The task functions of FreeRTOS are not modelled.
pub mod Kept
pub mod Lifecycle
pub mod Polls
use esp32_berry_lang.Base.{
  ℕ, zero, suc, Bool, true, false, Bytes, List, [], ◌∷◌, Option, none, some, ◌==◌, if◌then◌else◌,
}
use esp32_berry_lang.Base.Int.{pos, ltb_ℤ}
use esp32_berry_lang.Tftp.Machine.{Code, failed, ok, Recv, lost, Server, recv}
use esp32_berry_lang.Tftp.Data.{Open}
use esp32_berry_lang.Tftp.Request.{Run, done, fault, out_of_fuel, parse_rq}

-- What `socket`, `malloc` and `bind` return to one call of `TFTP_start`.
pub record Os : Type 0 where
  pub socket : Option ℕ
  pub malloc : Option Bytes
  pub bind : Bool

-- `TFTP_init`
unfoldable pub init : ℕ → Server → Server
init port s = record s { m_port = if port == 0 then 69 else port }

-- The calls of `TFTP_start` on a new socket; the option is the buffer that `malloc` gives.
unfoldable pub start_on : ℕ → Option Bytes → Bool → Server → Code × Server
start_on sock none bound s = (failed, record s { m_sock = none; m_buffer = [] })
start_on sock (some b) bound s =
    let s' = record s { m_sock = some sock; m_buffer = b } in if bound then (ok, s') else (ok, s')

-- `TFTP_start` with no socket open
unfoldable pub start_new : Os → Option ℕ → Server → Code × Server
start_new os none s = (failed, record s { m_sock = none })
start_new os (some sock) s = start_on sock os.malloc os.bind s

-- `TFTP_start`
unfoldable pub start : Os → Server → Code × Server
start os s = elim s.m_sock [ some sock ↦ (ok, s) | none ↦ start_new os os.socket s ]

-- `TFTP_stop`
unfoldable pub stop : Server → Server
stop s = record s { m_sock = none; m_buffer = [] }

-- `TFTP_run`, after `recvfrom`
unfoldable pub received : Open → ℕ → List Recv → Server → Run
received open_file fuel inbox s =
    if ltb_ℤ s.m_data_size (pos 0)
    then (if s.would_block then done ok inbox s else done failed inbox s)
    else parse_rq open_file fuel inbox s

-- `TFTP_run(false)`. With no datagram at hand `recvfrom` would block; on the socket -1 it fails.
unfoldable pub run : Open → ℕ → List Recv → Server → Run
run open_file fuel inbox s = elim s.m_sock [
  | none ↦ received open_file fuel inbox (recv (lost false) s)
  | some sock ↦ elim inbox [
    | [] ↦ received open_file fuel [] (recv (lost true) s)
    | r ∷ rest ↦ received open_file fuel rest (recv r s)
  ]
]

-- Where `TFTP_task` stands: ended after `TFTP_stop`, with what it has not read, still polling, crashed,
-- or caught in a request.
pub data Life : Type 0 where
  ended : List Recv → Server → Life
  polling : List Recv → Server → Life
  crashed : Life
  caught : Life

-- Some rounds of `while (TFTP_run(false) >= 0)`, each with the given fuel for its request
unfoldable pub task_rounds : Open → ℕ → ℕ → List Recv → Server → Life
task_rounds open_file fuel zero inbox s = polling inbox s
task_rounds open_file fuel (suc rounds) inbox s = elim (run open_file fuel inbox s) [
  | done c rest s' ↦ elim c [
    | failed ↦ ended rest (stop s')
    | _ ↦ task_rounds open_file fuel rounds rest s'
  ]
  | fault ↦ crashed
  | out_of_fuel ↦ caught
]

-- `TFTP_task`; the result of `TFTP_start` is not looked at.
unfoldable pub task : Open → Os → ℕ → ℕ → List Recv → Server → Life
task open_file os fuel rounds inbox s =
    task_rounds open_file fuel rounds inbox (start os (init 0 s)).1
