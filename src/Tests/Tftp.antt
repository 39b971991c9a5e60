-- ===== src/Tests/Tftp.antt =====
-- The TFTP server at concrete inputs.
mod Whole
use esp32_berry_lang.Base.{
  ℕ, Bytes, List, [], ◌∷◌, ◌++◌, none, some, replicate, codes, ◌≡◌, refl, true, false, take,
  overlay, arith, ◌⊎◌, inl, inr, map,
}
use esp32_berry_lang.Base.Int.{pos, ◌-ℤ◌}
use esp32_berry_lang.Stdio.{Stream}
use esp32_berry_lang.Tftp.Machine.{ok, again, Recv, datagram, Server, recv, send_ack}
use esp32_berry_lang.Tftp.Data.{Open, on_write, write_loop, on_write_data, on_close}
use esp32_berry_lang.Tftp.Write.{write_step, data_step, write_rounds, process_write, go}
use esp32_berry_lang.Tftp.Write.Repeats
use esp32_berry_lang.Tftp.Write.Repeats.{Packet, due, request, sent, Stored, process_write-Stored}
use esp32_berry_lang.Tftp.Write.Blocks.{write_rounds-file}
use esp32_berry_lang.Tftp.Read.{process_read, attempts}
use esp32_berry_lang.Tftp.Read.Download.{
  last, more, Downloaded, ack_replies, process_read-Downloaded,
}
use esp32_berry_lang.Tftp.Read.Total.{IsEnd, process_read-IsEnd}
use esp32_berry_lang.Tftp.Read.Retry.{attempts_retry, error_packet, error_buffer}
use esp32_berry_lang.Tftp.Request.{
  Run, done, out_of_fuel, c_string, str_at, accept_wrq, answer_wrq, named_wrq, parse_wrq, serve_wrq,
  dispatch, rq_rounds, parse_rq,
}
use esp32_berry_lang.Tftp.Request.Total.{parse_rq_endless}
use esp32_berry_lang.Tftp.Task.{Os, start, received, run, task_rounds, stop as stop_server, ended}
use esp32_berry_lang.Tftp.Task.Lifecycle.{task_rounds_unknown}

abbrev blank : Server
blank = record {
  m_port = 0;
  m_sock = none;
  m_client = 0;
  m_buffer = [];
  m_data_size = pos 0;
  file = none;
  closed = [];
  beyond = 77;
  would_block = false;
  sends = [];
  outbox = [];
}

abbrev os : Os
os = record { socket = some 3; malloc = some (replicate 516 0); bind = true }

abbrev ready : Server
ready = record blank { m_port = 69; m_sock = some 3; m_buffer = replicate 516 0 }

abbrev empty_file : Stream
empty_file = record { rest = []; written = []; room = 10000 }

abbrev writing : Server
writing = record ready { m_client = 9; file = some empty_file }

abbrev reading : Server
reading = record ready {
  m_client = 9;
  file = some (record { rest = replicate 600 65; written = []; room = 0 });
}

abbrev open_empty : Open
open_empty name mode = some empty_file

abbrev wrq_a : Bytes
wrq_a = 0 ∷ 2 ∷ (codes "a" ++ (0 ∷ (codes "octet" ++ (0 ∷ []))))

abbrev data_abc : Bytes
data_abc = 0 ∷ 3 ∷ 0 ∷ 1 ∷ codes "abc"

abbrev contents : List Stream → List Bytes
contents = map (λ st. st.written)

abbrev files : Run → List Bytes
files (done c i s) = contents s.closed
files _ = []

-- A file "abc" is stored with the byte of the request that stands behind it in the buffer.
upload_abc :
    files (run open_empty 4 (datagram 9 wrq_a ∷ datagram 9 data_abc ∷ []) ready)
    ≡ (codes "abc" ++ (b'e' ∷ [])) ∷ []
unfolding run received parse_rq rq_rounds dispatch serve_wrq parse_wrq named_wrq answer_wrq
    accept_wrq on_write c_string str_at recv send_ack process_write write_rounds write_step
    data_step on_write_data write_loop on_close ◌-ℤ◌
upload_abc = refl

-- The request comes again before the first of two blocks, and that block again behind it.
abbrev with_repeats : List Packet
with_repeats =
    request 97 0 (codes "octet")
    ∷ due (replicate 512 7)
    ∷ Repeats.repeated 1 (replicate 512 7)
    ∷ due (1 ∷ 2 ∷ [])
    ∷ []

process_read-IsEnd_example : IsEnd (process_read (datagram 9 (0 ∷ 9 ∷ []) ∷ []) reading)
process_read-IsEnd_example = process_read-IsEnd (datagram 9 (0 ∷ 9 ∷ []) ∷ []) reading

write_rounds-file_example :
    (write_rounds
      (datagram 9 data_abc ∷ [])
      65536
      (record writing { m_buffer = 0 ∷ 0 ∷ 0 ∷ 0 ∷ [] })).2.file
    ≡ some empty_file
write_rounds-file_example =
    write_rounds-file (datagram 9 data_abc ∷ []) 65536
      (record writing { m_buffer = 0 ∷ 0 ∷ 0 ∷ 0 ∷ [] }) (omega arith) (omega arith) (omega arith)

-- The reply to the first block is an ERROR packet.
attempts_retry_example :
    attempts 3 88 1 (datagram 9 (0 ∷ 5 ∷ 0 ∷ 0 ∷ []) ∷ datagram 9 (0 ∷ 4 ∷ 0 ∷ 1 ∷ []) ∷ []) reading
    ≡ (
      true,
      [],
      record reading {
        m_buffer = error_buffer reading.m_buffer;
        outbox =
            record { to = 9; payload = replicate 92 0 }
            ∷ record { to = 9; payload = error_packet }
            ∷ record { to = 9; payload = take 92 (error_buffer reading.m_buffer) }
            ∷ [];
      },
    )
attempts_retry_example = attempts_retry 88 1 9 9 (0 ∷ 5 ∷ 0 ∷ 0 ∷ []) [] reading refl refl refl

-- The request for an upload of "a" stands in the buffer.
abbrev asked : Server
asked = record ready { m_client = 9; m_buffer = wrq_a ++ replicate 506 0; m_data_size = pos 10 }

abbrev accepted : Server
accepted = record asked {
  file = some empty_file;
  outbox = record { to = 9; payload = 0 ∷ 4 ∷ 0 ∷ 0 ∷ [] } ∷ [];
}

accepts : parse_wrq open_empty asked ≡ some (ok, accepted)
unfolding parse_wrq named_wrq answer_wrq accept_wrq on_write c_string str_at send_ack
accepts = refl

abbrev abort : Recv
abort = datagram 9 (0 ∷ 5 ∷ 0 ∷ 0 ∷ [])

aborts : process_write (abort ∷ []) accepted ≡ (again, [], recv abort accepted)
unfolding process_write write_rounds write_step recv
aborts = refl

abort_is_no_request : ¬ ((◌≡◌ {A = ℕ} 5 1) ⊎ (◌≡◌ {A = ℕ} 5 2))
abort_is_no_request (inl e) = omega arith
abort_is_no_request (inr e) = omega arith

-- A client that gives up an upload by an ERROR packet.
parse_rq_endless_example : parse_rq open_empty 1000 (abort ∷ []) asked ≡ out_of_fuel
unfolding recv
parse_rq_endless_example =
    parse_rq_endless open_empty 1000 (abort ∷ []) [] asked accepted (recv abort accepted) refl
      accepts aborts abort_is_no_request

task_rounds_unknown_example :
    task_rounds open_empty 5 7 (abort ∷ []) ready ≡ ended [] (stop_server (recv abort ready))
unfolding recv
task_rounds_unknown_example =
    task_rounds_unknown open_empty 4 6 9 3 (0 ∷ 5 ∷ 0 ∷ 0 ∷ []) [] ready refl abort_is_no_request
