-- ===== src/Tftp/Task/Kept.antt =====
-- What the server of components/internals/esp32/tftp_server.c keeps while it polls: the socket and
-- the size of the buffer.
use esp32_berry_lang.Base.{
  ℕ, zero, suc, ◌+◌, Bool, true, false, Bytes, List, [], ◌∷◌, ◌++◌, Option, none, some, length,
  take, drop, set, overlay, ◌≡◌, refl, ◌∙◌, arith, length-append, length-take, length-drop,
  length-set, length-overlay, Option-cases, inl, inr, if_both, ltb,
}
use esp32_berry_lang.Base.Int.{ℤ, pos, pos_part, ◌-ℤ◌}
use esp32_berry_lang.Tftp.Wire.{hi, lo, put16, get16, error_cmd, data_cmd, not_defined}
use esp32_berry_lang.Tftp.Machine.{
  Code, Recv, lost, datagram, Server, deliver, sendto, ack_packet, send_ack, error_bytes,
  send_error, incorrect_ack, check_ack, wait_for_ack, recv,
}
use esp32_berry_lang.Tftp.Data.{Open, on_read, on_write, on_write_data, on_close}
use esp32_berry_lang.Tftp.Write.{Verdict, stop, go, data_step, write_step, write_rounds}
use esp32_berry_lang.Tftp.Write.Rounds.{Verdict-cases, write_rounds-stop, write_rounds-go}
use esp32_berry_lang.Tftp.Read.{put_header, read_block, attempts, read_rounds}
use esp32_berry_lang.Tftp.Read.Download.{read_block_lem}

pub record Keeps (s t : Server) : Type 0 where
  pub sock : t.m_sock ≡ s.m_sock
  pub size : length t.m_buffer ≡ length s.m_buffer

pub Keeps-refl : (s : Server) → Keeps s s
Keeps-refl s = record { sock = refl; size = refl }

pub Keeps-trans : {s t u : Server} → Keeps s t → Keeps t u → Keeps s u
Keeps-trans h k = record { sock = k.sock ∙ h.sock; size = k.size ∙ h.size }

deliver-Keeps : (r : List Bool) (p : Bytes) (s : Server) → Keeps s (deliver r p s).1
unfolding deliver
deliver-Keeps [] p s = record { sock = refl; size = refl }
deliver-Keeps (true ∷ r) p s = record { sock = refl; size = refl }
deliver-Keeps (false ∷ r) p s = record { sock = refl; size = refl }

pub sendto-Keeps : (p : Bytes) (s : Server) → Keeps s (sendto p s).1
unfolding sendto
sendto-Keeps p s = deliver-Keeps s.sends p s

pub send_ack-Keeps : (block : ℕ) (s : Server) → Keeps s (send_ack block s)
unfolding send_ack
send_ack-Keeps block s = sendto-Keeps (ack_packet block) s

length-put16 : (b : Bytes) (i x : ℕ) → length (put16 b i x) ≡ length b
length-put16 b i x = length-set (set b i (hi x)) (i + 1) (lo x) ∙ length-set b i (hi x)

length-error_bytes : (code : ℕ) (message b : Bytes) → length (error_bytes code message b) ≡ length b
unfolding error_bytes
length-error_bytes code message b =
    let head = put16 (put16 b 0 error_cmd) 2 code in
    omega (
      arith,
      length-append (take 4 head) (overlay (message ++ 0 ∷ []) (drop 4 head)),
      length-take 4 head,
      length-drop 4 head,
      length-overlay (message ++ 0 ∷ []) (drop 4 head),
      length-put16 (put16 b 0 error_cmd) 2 code,
      length-put16 b 0 error_cmd,
    )

pub send_error-Keeps :
    (code : ℕ) (message : Bytes) (s : Server) → Keeps s (send_error code message s)
unfolding send_error
send_error-Keeps code message s =
    let k = sendto-Keeps _ (record s { m_buffer = error_bytes code message s.m_buffer }) in
    record { sock = k.sock; size = k.size ∙ length-error_bytes code message s.m_buffer }

check_ack-Keeps : (block : ℕ) (r : Recv) (s : Server) → Keeps s (check_ack block r s).1
unfolding check_ack
check_ack-Keeps block (lost e) s =
    let k = send_error-Keeps not_defined incorrect_ack (record s { would_block = e }) in
    record { sock = k.sock; size = k.size }
check_ack-Keeps block (datagram from d) s =
    let k = send_error-Keeps not_defined incorrect_ack (record s { m_client = from }) in
    record { sock = ground (arith, k.sock); size = ground (arith, k.size) }

wait_for_ack-Keeps :
    (block : ℕ) (inbox : List Recv) (s : Server) → Keeps s (wait_for_ack block inbox s).2
unfolding wait_for_ack
wait_for_ack-Keeps block [] s = check_ack-Keeps block (lost true) s
wait_for_ack-Keeps block (r ∷ inbox) s = check_ack-Keeps block r s

pub recv-Keeps : (r : Recv) (s : Server) → Keeps s (recv r s)
unfolding recv
recv-Keeps (lost e) s = record { sock = refl; size = refl }
recv-Keeps (datagram from d) s = record { sock = refl; size = length-overlay d s.m_buffer }

on_write_data-Keeps : (n : ℤ) (src : Bytes) (s : Server) → Keeps s (on_write_data n src s)
unfolding on_write_data
on_write_data-Keeps n src s = record { sock = ground arith; size = ground arith }

pub on_close-Keeps : (s : Server) → Keeps s (on_close s)
unfolding on_close
on_close-Keeps s = record { sock = ground arith; size = ground arith }

pub on_write-Keeps :
    (open_file : Open) (name : Bytes) (s : Server) → Keeps s (on_write open_file name s).1
unfolding on_write
on_write-Keeps open_file name s = record { sock = ground arith; size = ground arith }

pub on_read-Keeps :
    (open_file : Open) (name : Bytes) (s : Server) → Keeps s (on_read open_file name s).1
unfolding on_read
on_read-Keeps open_file name s = record { sock = ground arith; size = ground arith }

-- An upload

verdict_state : Verdict → Server
verdict_state (stop c t) = t
verdict_state (go n t) = t

data_step-Keeps : (next : ℕ) (s : Server) → Keeps s (verdict_state (data_step next s))
unfolding data_step verdict_state
data_step-Keeps next s =
    let acked = send_ack (get16 s.m_buffer 2) s in
    let a = send_ack-Keeps (get16 s.m_buffer 2) s in
    let w = on_write_data-Keeps (s.m_data_size -ℤ pos 4) (drop 4 acked.m_buffer) acked in
    record { sock = ground (arith, a.sock, w.sock); size = ground (arith, a.size, w.size) }

write_step-Keeps : (next : ℕ) (s : Server) → Keeps s (verdict_state (write_step next s))
unfolding write_step verdict_state
write_step-Keeps next s =
    let a = send_ack-Keeps 0 s in
    let d = data_step-Keeps next s in
    record { sock = ground (arith, a.sock, d.sock); size = ground (arith, a.size, d.size) }

pub write_rounds-Keeps :
    (inbox : List Recv) (next : ℕ) (s : Server) → Keeps s (write_rounds inbox next s).2
write_rounds-Keeps [] next s = unfold write_rounds in recv-Keeps (lost true) s
write_rounds-Keeps (r ∷ inbox) next s =
    let step = Keeps-trans (recv-Keeps r s) (write_step-Keeps next (recv r s)) in
    elim (Verdict-cases (write_step next (recv r s))) [
      | inl (c, t, e) ↦
          rw (write_rounds-stop r inbox next s t c e) (unfold verdict_state in rw e at step)
      | inr (n, t, e) ↦ rw (write_rounds-go r inbox next n s t e) (
          Keeps-trans {t = t} (unfold verdict_state in rw e at step) (write_rounds-Keeps inbox n t))
    ]

-- A download

put_header-Keeps : (block : ℕ) (s : Server) → Keeps s (put_header block s)
unfolding put_header
put_header-Keeps block s = record {
  sock = refl;
  size = length-put16 (put16 s.m_buffer 0 data_cmd) 2 block ∙ length-put16 s.m_buffer 0 data_cmd;
}

read_block-Keeps : (s : Server) → Keeps s (read_block s)
read_block-Keeps s = elim (Option-cases s.file) [
  | inl e ↦ unfold read_block in rw e (record { sock = refl; size = refl })
  | inr (st, e) ↦ rw (read_block_lem s st e) (record {
    sock = refl;
    size = omega (
      arith,
      length-append (take 4 s.m_buffer) (overlay (take 512 st.rest) (drop 4 s.m_buffer)),
      length-overlay (take 512 st.rest) (drop 4 s.m_buffer),
      length-take 4 s.m_buffer,
      length-drop 4 s.m_buffer,
    );
  })
]

attempts-Keeps :
    (r size block : ℕ) (inbox : List Recv) (s : Server) → Keeps s (attempts r size block inbox s).2
unfolding attempts
attempts-Keeps zero size block inbox s = Keeps-refl s
attempts-Keeps (suc r) size block inbox s =
    let s1 = (sendto (take (size + 4) s.m_buffer) s).1 in
    let out = wait_for_ack block inbox s1 in
    ground (
      arith,
      sendto-Keeps (take (size + 4) s.m_buffer) s,
      wait_for_ack-Keeps block inbox s1,
      attempts-Keeps r size block out.1 out.2,
    )

abbrev pub EndKeeps : Server → Option (Code × List Recv × Server) → Type 0
EndKeeps s none = Unit
EndKeeps s (some (c, rest, t)) = Keeps s t

pub EndKeeps-from :
    {s t : Server}
    → Keeps s t
    → (o : Option (Code × List Recv × Server)) → EndKeeps t o
    → EndKeeps s o
EndKeeps-from h none k = tt
EndKeeps-from h (some (c, rest, u)) k = Keeps-trans h k

pub read_rounds-Keeps :
    (fuel block : ℕ) (inbox : List Recv) (s : Server) → EndKeeps s (read_rounds fuel block inbox s)
unfolding read_rounds
read_rounds-Keeps zero block inbox s = tt
read_rounds-Keeps (suc fuel) block inbox s =
    let s0 = put_header block s in
    let s1 = read_block s0 in
    let out = attempts 3 (pos_part s1.m_data_size) block inbox s1 in
    let so_far : Keeps s out.2 = Keeps-trans (put_header-Keeps block s) (
      Keeps-trans (read_block-Keeps s0)
        (attempts-Keeps 3 (pos_part s1.m_data_size) block inbox s1)) in
    if_both (EndKeeps s) out.0
      (if_both (EndKeeps s) (ltb (pos_part s1.m_data_size) 512) so_far (
        EndKeeps-from so_far (read_rounds fuel (block + 1) out.1 out.2)
          (read_rounds-Keeps fuel (block + 1) out.1 out.2)))
      so_far
