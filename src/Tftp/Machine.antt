-- ===== src/Tftp/Machine.antt =====
-- The globals of components/internals/esp32/tftp_server.c, the two socket calls that it makes, and
-- the small packets that it sends: `TFTP_send_ack`, `TFTP_send_error`, `TFTP_wait_for_ack`.
--
-- The network is given from outside: a list with the result of each `recvfrom` to come, and a list
-- with the result of each `sendto` to come. A `recvfrom` past the end of its list times out.
pub mod Sends
use esp32_berry_lang.Base.{
  ℕ, ◌+◌, ◌%◌, ◌^◌, min, Bytes, List, [], ◌∷◌, ◌++◌, Bool, true, false, not, ◌||◌, Option, length,
  take, drop, overlay, ltb, ◌==◌, if◌then◌else◌,
}
use esp32_berry_lang.Base.Int.{ℤ, pos, negsuc}
use esp32_berry_lang.Stdio.{Stream}
use esp32_berry_lang.Tftp.Wire.{
  ack_cmd, error_cmd, not_defined, tftp_data_size, hi, lo, put16, get16,
}

-- The values -1, 0 and 1 that the functions return.
pub data Code : Type 0 where
  failed ok again : Code

-- What one `recvfrom` gives: an error, with whether `errno` is EAGAIN or EWOULDBLOCK, or a datagram
-- with its sender.
pub data Recv : Type 0 where
  lost : Bool → Recv
  datagram : ℕ → Bytes → Recv

-- A packet handed to `sendto` with success.
pub record Sent : Type 0 where
  pub to : ℕ
  pub payload : Bytes

-- The globals. `m_sock` is `none` for -1, `m_buffer` is `[]` for NULL; `file` is the global `f`.
-- `beyond` is the byte of the heap behind the buffer, `would_block` is the test of `errno`.
pub record Server : Type 0 where
  pub m_port : ℕ
  pub m_sock : Option ℕ
  pub m_client : ℕ
  pub m_buffer : Bytes
  pub m_data_size : ℤ
  pub file : Option Stream
  pub closed : List Stream
  pub beyond : ℕ
  pub would_block : Bool
  pub sends : List Bool
  pub outbox : List Sent

-- `m_data_size = recvfrom(m_sock, m_buffer, TFTP_DATA_SIZE, …)`: a longer datagram is cut.
unfoldable pub recv : Recv → Server → Server
recv (lost e) s = record s { m_data_size = negsuc 0; would_block = e }
recv (datagram from d) s = record s {
  m_client = from;
  m_buffer = overlay d s.m_buffer;
  m_data_size = pos (min (length d) tftp_data_size);
}

-- `sendto(m_sock, payload, …, &m_client, …)`; the result says if it succeeded.
unfoldable pub deliver : List Bool → Bytes → Server → Bool × Server
deliver [] p s =
    (true, record s { outbox = s.outbox ++ (record { to = s.m_client; payload = p } ∷ []) })
deliver (true ∷ r) p s = (
  true,
  record s { sends = r; outbox = s.outbox ++ (record { to = s.m_client; payload = p } ∷ []) },
)
deliver (false ∷ r) p s = (false, record s { sends = r })

unfoldable pub sendto : Bytes → Server → Bool × Server
unfolding deliver
sendto p s = deliver s.sends p s

abbrev pub ack_packet : ℕ → Bytes
ack_packet block = hi ack_cmd ∷ lo ack_cmd ∷ hi block ∷ lo block ∷ []

-- `TFTP_send_ack`
unfoldable pub send_ack : ℕ → Server → Server
unfolding sendto
send_ack block s = (sendto (ack_packet block) s).1

-- The buffer with an error packet in front, over what it held.
unfoldable pub error_bytes : ℕ → Bytes → Bytes → Bytes
error_bytes code message b =
    let head = put16 (put16 b 0 error_cmd) 2 code in
    take 4 head ++ overlay (message ++ 0 ∷ []) (drop 4 head)

-- `TFTP_send_error`: the packet is built in `m_buffer`.
unfoldable pub send_error : ℕ → Bytes → Server → Server
send_error code message s =
    let b = error_bytes code message s.m_buffer in
    (sendto (take (4 + length message + 1) b) (record s { m_buffer = b })).1

-- "incorrect ack"
abbrev pub incorrect_ack : Bytes
incorrect_ack =
    b'i' ∷ b'n' ∷ b'c' ∷ b'o' ∷ b'r' ∷ b'r' ∷ b'e' ∷ b'c' ∷ b't' ∷ b' ' ∷ b'a' ∷ b'c' ∷ b'k' ∷ []

-- `TFTP_wait_for_ack` on the datagram received, which goes to four bytes of its own.
unfoldable pub check_ack : ℕ → Recv → Server → Code × Server
check_ack block (lost e) s =
    (failed, send_error not_defined incorrect_ack (record s { would_block = e }))
check_ack block (datagram from d) s =
    let s' = record s { m_client = from } in
    if ltb (length d) 4 || not (get16 d 0 == ack_cmd)
    then (failed, send_error not_defined incorrect_ack s')
    else if not (get16 d 2 == block % 2 ^ 16)
    then (again, s')
    else (ok, s')

unfoldable pub wait_for_ack : ℕ → List Recv → Server → Code × List Recv × Server
unfolding check_ack
wait_for_ack block [] s = let (c, s') = check_ack block (lost true) s in (c, [], s')
wait_for_ack block (r ∷ inbox) s = let (c, s') = check_ack block r s in (c, inbox, s')
