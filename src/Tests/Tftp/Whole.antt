-- ===== src/Tests/Tftp/Whole.antt =====
-- The whole server at concrete inputs.
use esp32_berry_lang.Base.{
  ℕ, ◌≡◌, codes, Bytes, List, [], ◌∷◌, ◌++◌, sym, ◌∙◌, none, some, replicate, refl, arith, true,
  length, length-replicate, ap,
}
use mathlib.Core.Option.{some_inj}
use esp32_berry_lang.Base.Int.{negsuc}
use esp32_berry_lang.Stdio.{Stream}
use esp32_berry_lang.Tftp.Machine.{Recv, recv}
use esp32_berry_lang.Tftp.Data.{Open}
use esp32_berry_lang.Tftp.Machine.{Server, datagram, lost}
use esp32_berry_lang.Tftp.Read.Download.{ack_replies}
use esp32_berry_lang.Tftp.RoundTrip.{run-Served-Fetched}
use esp32_berry_lang.Tftp.Write.Repeats.{sent}
use esp32_berry_lang.Tftp.Request.Named.{IsText, request_packet}
use esp32_berry_lang.Tftp.Session.{Served, run-Served}
use esp32_berry_lang.Tftp.Session.Silent.{Full, packets, task_rounds_silent}
use esp32_berry_lang.Tftp.Session.Download.{Fetched, Resent, run-Resent}
use esp32_berry_lang.Tftp.Read.Stale.{answer, last_answer, replies}
use esp32_berry_lang.Tftp.Task.{
  ended, stop, task_rounds, init, start, start_new, start_on, received, run,
}
use esp32_berry_lang.Tftp.Task.Lifecycle.{Allocates}
use esp32_berry_lang.Tftp.Service.{
  polling, Service, task_start, task_begin, task_next, after_round, task_round, starts, begins,
  polls, here, next,
}
use esp32_berry_lang.Tftp.Service.Sound.{IsSound, Reach-IsSound}
use esp32_berry_lang.Tests.Tftp.{blank, os, empty_file, ready, open_empty, with_repeats}

abbrev octet : Bytes
octet = codes "octet"

abbrev name_a : Bytes
name_a = codes "a"

is_name : IsText name_a
is_name = (refl, tt)

is_octet : IsText octet
is_octet = (refl, (refl, (refl, (refl, (refl, tt)))))

-- Two blocks and three packets in all that come again, for the file "a"
run-Served_example : Served ready empty_file 9 (request_packet 2 name_a octet) with_repeats [] (
    run open_empty 1
      (datagram 9 (request_packet 2 name_a octet) ∷ (sent 9 1 with_repeats ++ []))
      ready)
run-Served_example =
    run-Served open_empty 0 3 9 name_a octet empty_file with_repeats [] ready refl refl refl is_name
      is_octet (omega arith) refl (refl, omega arith, (refl, (omega arith, refl, omega arith)))
      (omega arith) (omega arith)

-- What the upload of 514 bytes leaves in the file, opened again
abbrev kept_file : Stream
kept_file = record empty_file { written = replicate 512 7 ++ (77 ∷ 1 ∷ 2 ∷ 7 ∷ []); room = 9484 }

abbrev open_kept : Open
open_kept name mode = some (record { rest = kept_file.written; written = []; room = 0 })

abbrev blocks : List Bytes
blocks = replicate 512 7 ∷ (1 ∷ 2 ∷ 7 ∷ []) ∷ []

-- Before the first block, its predecessor's number is acknowledged twice.
run-Resent_example :
    Resent ready 8
      (record { block = replicate 512 7; stale = 0 ∷ 0 ∷ [] }
        ∷ record { block = 1 ∷ 2 ∷ 7 ∷ []; stale = [] }
        ∷ [])
      []
      (run open_kept 1
        (datagram 8 (request_packet 1 name_a octet)
          ∷ replies 8 1
              (record { block = replicate 512 7; stale = 0 ∷ 0 ∷ [] }
                ∷ record { block = 1 ∷ 2 ∷ 7 ∷ []; stale = [] }
                ∷ [])
              [])
        ready)
run-Resent_example =
    run-Resent open_kept 0 3 8 name_a octet
      (record { rest = kept_file.written; written = []; room = 0 }) [] ready refl refl refl is_name
      is_octet (omega arith) refl
      (answer (0 ∷ 0 ∷ []) (omega arith) (omega arith, (omega arith, tt)) (omega arith)
        (last_answer [] (omega arith) tt (omega arith)))

run-Served-Fetched_example : Fetched ready 8 blocks [] (
    run open_kept 1
      (datagram 8 (request_packet 1 name_a octet) ∷ (ack_replies 8 1 blocks ++ []))
      ready)
run-Served-Fetched_example =
    let served =
      run-Served open_empty 0 3 9 name_a octet empty_file with_repeats [] ready refl refl refl
        is_name is_octet (omega arith) refl
        (refl, omega arith, (refl, (omega arith, refl, omega arith))) (omega arith) (omega arith) in
    run-Served-Fetched open_empty 0 0 3 3 9 8 name_a octet octet empty_file kept_file
      (record { rest = kept_file.written; written = []; room = 0 }) with_repeats [] [] [] ready
      served.after ready refl refl refl is_name is_octet (omega arith) refl refl
      (refl, omega arith, (refl, (omega arith, refl, omega arith))) (omega arith) (omega arith)
      served.returned served.stored open_kept refl refl refl refl refl is_octet (omega arith)

-- One full block, which comes twice, and then nothing for 30 seconds; a later request is not read.
abbrev sevens : Full
sevens = record { from = 9; high = 0; low = 1; payload = replicate 512 7; full = refl }

task_rounds_silent_example :
    let before = λ (after : List Recv).
      datagram 9 (request_packet 2 name_a octet)
      ∷ (packets (sevens ∷ sevens ∷ []) ++ (lost true ∷ after)) in
    let later = datagram 8 (request_packet 1 name_a octet) ∷ [] in
    (t : Server) × (task_rounds open_empty 1 2 (before later) ready ≡ ended later (stop t))
    × (task_rounds open_empty 1 2 (before []) ready ≡ ended [] (stop t))
task_rounds_silent_example =
    task_rounds_silent open_empty 0 1 3 9 name_a octet empty_file (sevens ∷ sevens ∷ []) true
      (datagram 8 (request_packet 1 name_a octet) ∷ []) ready refl refl refl is_name is_octet
      (omega arith) refl

abbrev at_boot : Service
at_boot = record { server = blank; tasks = []; th_tftp = none }

at_boot-IsSound : IsSound at_boot
at_boot-IsSound = record {
  consistent = record { buffered = λ fd e. cc; freed = λ e. refl };
  used = λ fd e. cc;
}

os-Allocates : Allocates os
os-Allocates b e = ap length (some_inj.0 (sym e)) ∙ length-replicate {A = ℕ} 516 0

-- The task is started, and has polled once.
abbrev polled : Service
polled = record {
  server = record ready { m_client = 0; m_data_size = negsuc 0; would_block = true };
  tasks = polling ∷ [];
  th_tftp = some 0;
}

Reach-IsSound_example : IsSound polled
unfolding task_round after_round task_next run received recv task_start task_begin start start_new
    start_on init
Reach-IsSound_example = Reach-IsSound {open_file = open_empty} at_boot-IsSound (
    next (next (next here (starts true)) (begins os 0 refl os-Allocates))
      (polls {t = polled} 1 [] 0 refl refl))
