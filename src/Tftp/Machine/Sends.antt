-- ===== src/Tftp/Machine/Sends.antt =====
-- What the small packets of the server do to its state.
use esp32_berry_lang.Base.{ℕ, Bytes, List, [], ◌∷◌, ◌++◌, Bool, true, ◌≡◌, arith}
use esp32_berry_lang.Tftp.Wire.{not_defined}
use esp32_berry_lang.Tftp.Machine.{
  Recv, lost, datagram, Server, deliver, sendto, ack_packet, send_ack, send_error, check_ack,
  wait_for_ack, incorrect_ack,
}

pub sendto_lem :
    (p : Bytes) (s : Server)
    → s.sends ≡ []
    → sendto p s
      ≡ (true, record s { outbox = s.outbox ++ (record { to = s.m_client; payload = p } ∷ []) })
unfolding sendto
sendto_lem p s h = ground arith

-- With no failure of `sendto` to come, an acknowledgement goes out to the last sender.
pub send_ack_lem :
    (block : ℕ) (s : Server)
    → s.sends ≡ []
    → send_ack block s ≡ record s {
      outbox = s.outbox ++ (record { to = s.m_client; payload = ack_packet block } ∷ []);
    }
unfolding send_ack
send_ack_lem block s h = ground arith

deliver-file :
    (r : List Bool) (p : Bytes) (s : Server)
    → ((deliver r p s).1.file ≡ s.file) × ((deliver r p s).1.m_buffer ≡ s.m_buffer)
unfolding deliver
deliver-file _ p s = ground arith

-- An acknowledgement touches neither the file nor the buffer.
pub send_ack_keeps :
    (block : ℕ) (s : Server)
    → ((send_ack block s).file ≡ s.file) × ((send_ack block s).m_buffer ≡ s.m_buffer)
unfolding send_ack sendto
send_ack_keeps block s = deliver-file s.sends (ack_packet block) s

-- Neither `sendto` nor the error packet touches the file.
pub sendto-file : (p : Bytes) (s : Server) → (sendto p s).1.file ≡ s.file
unfolding sendto
sendto-file p s = (deliver-file s.sends p s).0

pub send_error-file :
    (code : ℕ) (message : Bytes) (s : Server) → (send_error code message s).file ≡ s.file
unfolding send_error
send_error-file code message s = sendto-file _ _

pub check_ack-file : (block : ℕ) (r : Recv) (s : Server) → (check_ack block r s).1.file ≡ s.file
unfolding check_ack
check_ack-file block (lost e) s =
    send_error-file not_defined incorrect_ack (record s { would_block = e })
check_ack-file block (datagram from d) s =
    ground (arith, send_error-file not_defined incorrect_ack (record s { m_client = from }))

pub wait_for_ack-file :
    (block : ℕ) (inbox : List Recv) (s : Server) → (wait_for_ack block inbox s).2.file ≡ s.file
unfolding wait_for_ack
wait_for_ack-file block [] s = check_ack-file block (lost true) s
wait_for_ack-file block (r ∷ inbox) s = check_ack-file block r s

pub sendto-buffer : (p : Bytes) (s : Server) → (sendto p s).1.m_buffer ≡ s.m_buffer
unfolding sendto
sendto-buffer p s = (deliver-file s.sends p s).1
