-- ===== src/Tftp/Read.antt =====
-- `TFTP_process_read` of components/internals/esp32/tftp_server.c. The counter `total_size` only
-- goes to the log and is left out.
pub mod Download
pub mod Retry
pub mod Stale
pub mod Total
use esp32_berry_lang.Base.{
  ℕ, zero, suc, ◌+◌, Bool, true, false, List, ◌++◌, Option, none, some, length, take, drop, ltb,
  if◌then◌else◌,
}
use esp32_berry_lang.Base.Int.{pos, pos_part}
use esp32_berry_lang.Stdio.{Stream}
use esp32_berry_lang.Tftp.Wire.{data_cmd, put16}
use esp32_berry_lang.Tftp.Machine.{Code, failed, ok, Recv, Server, sendto, wait_for_ack}
use esp32_berry_lang.Tftp.Data.{on_read_data}

-- The header of a DATA packet is put at the front of the buffer.
unfoldable pub put_header : ℕ → Server → Server
put_header block s = record s { m_buffer = put16 (put16 s.m_buffer 0 data_cmd) 2 block }

-- `m_data_size = TFTP_on_read_data(&m_buffer[4], TFTP_DATA_SIZE - 4)`; `f` is never NULL here:
-- `process_read` runs only after `on_read` has opened the file.
unfoldable pub read_block : Server → Server
read_block s = elim s.file [
  | none ↦ record s { m_data_size = pos 0 }
  | some st ↦
      let (n, d, st') = on_read_data st 512 (drop 4 s.m_buffer) in
      record s { m_data_size = pos n; m_buffer = take 4 s.m_buffer ++ d; file = some st' }
]

-- `for (int r = 0; r < 3; r++)`: send the packet in the buffer, of `size` bytes of data, and wait for
-- its acknowledgement. The first argument is the number of rounds left, the result is whether
-- `result >= 0` after the loop.
unfoldable pub attempts : ℕ → ℕ → ℕ → List Recv → Server → Bool × List Recv × Server
attempts zero size block inbox s = (false, inbox, s)
attempts (suc r) size block inbox s =
    let (sent, s1) = sendto (take (size + 4) s.m_buffer) s in
    let (c, inbox', s2) = wait_for_ack block inbox s1 in
    let more = attempts r size block inbox' s2 in
    if sent then (elim c [ ok ↦ (true, inbox', s2) | _ ↦ more ]) else (false, inbox, s1)

-- The rounds of `for (;;)`, on fuel; `none` is out of fuel. `TFTP_on_read_data` returns a count, so
-- the branch for a negative size is not there.
unfoldable pub read_rounds : ℕ → ℕ → List Recv → Server → Option (Code × List Recv × Server)
read_rounds zero block inbox s = none
read_rounds (suc fuel) block inbox s =
    let s1 = read_block (put_header block s) in
    let size = pos_part s1.m_data_size in
    let (sent, inbox', s2) = attempts 3 size block inbox s1 in
    let more = read_rounds fuel (block + 1) inbox' s2 in
    if sent
    then (if ltb size (512) then some (ok, inbox', s2) else more)
    else some (failed, inbox', s2)

abbrev pub unread : Option Stream → ℕ
unread none = 0
unread (some st) = length st.rest

-- `TFTP_process_read`: every round but the last takes more than 512 bytes from the file.
unfoldable pub process_read : List Recv → Server → Option (Code × List Recv × Server)
process_read inbox s = read_rounds (suc (unread s.file)) 1 inbox s
