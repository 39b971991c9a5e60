-- ===== src/Tftp/Write.antt =====
-- `TFTP_process_write` of components/internals/esp32/tftp_server.c. The counter `total_size` only
-- goes to the log and is left out.
pub mod Blocks
pub mod Rounds
pub mod Steps
pub mod Upload
pub mod Repeats
use esp32_berry_lang.Base.{ℕ, ◌+◌, true, not, ◌&&◌, List, [], ◌∷◌, drop, ltb, ◌==◌, if◌then◌else◌}
use esp32_berry_lang.Base.Int.{pos, ◌-ℤ◌, ltb_ℤ}
use esp32_berry_lang.Tftp.Wire.{wrq, data_cmd, tftp_data_size, get16}
use esp32_berry_lang.Tftp.Machine.{Code, failed, ok, again, Recv, lost, Server, recv, send_ack}
use esp32_berry_lang.Tftp.Data.{on_write_data}

-- What a round of the loop does next: leave with a result, or go on with `next_block_num`.
pub data Verdict : Type 0 where
  stop : Code → Server → Verdict
  go : ℕ → Server → Verdict

-- A DATA packet stands in the buffer.
unfoldable pub data_step : ℕ → Server → Verdict
data_step next s =
    let block = get16 s.m_buffer 2 in
    let data_size = s.m_data_size -ℤ pos 4 in
    let acked = send_ack block s in
    let dup = ltb block next in
    let kept = if dup then acked else on_write_data data_size (drop 4 acked.m_buffer) acked in
    if ltb_ℤ s.m_data_size (pos tftp_data_size)
    then stop ok kept
    else go (if dup then next else next + 1) kept

-- One round, after `recvfrom` has returned.
unfoldable pub write_step : ℕ → Server → Verdict
write_step next s =
    let code = get16 s.m_buffer 0 in
    if ltb_ℤ s.m_data_size (pos 0)
    then stop failed s
    else if not (code == data_cmd)
    then if code == wrq && next == 1 then go next (send_ack 0 s) else stop again s
    else data_step next s

-- The rounds of `while (1)`. Each uses up one `recvfrom`, and a timeout ends the loop.
unfoldable pub write_rounds : List Recv → ℕ → Server → Code × List Recv × Server
write_rounds [] next s = (failed, [], recv (lost true) s)
write_rounds (r ∷ inbox) next s = elim (write_step next (recv r s)) [
  | stop c s' ↦ (c, inbox, s')
  | go n s' ↦ write_rounds inbox n s'
]

-- `TFTP_process_write`
unfoldable pub process_write : List Recv → Server → Code × List Recv × Server
process_write inbox s = write_rounds inbox 1 s
