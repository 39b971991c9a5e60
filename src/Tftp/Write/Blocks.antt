-- ===== src/Tftp/Write/Blocks.antt =====
-- What one round of `process_write` does with a packet, and what no number of rounds does.
use esp32_berry_lang.Base.{
  ℕ, zero, suc, ◌+◌, ◌≤◌, ◌<◌, Bytes, List, [], ◌∷◌, ◌++◌, ◌≡◌, inl, inr, refl, ap, arith, ◌∙◌,
  overlay, get_or, ltb, if◌then◌else◌, List, true,
}
use esp32_berry_lang.Base.Int.{pos}
use esp32_berry_lang.Tftp.Wire.{data_cmd, get16}
use esp32_berry_lang.Tftp.Machine.{ok, Recv, lost, datagram, Server, ack_packet, recv}
use esp32_berry_lang.Tftp.Machine.Sends.{send_ack_lem, send_ack_keeps}
use esp32_berry_lang.Tftp.Write.Rounds.{Verdict-cases, write_rounds-stop, write_rounds-go}
use esp32_berry_lang.Tftp.Write.{Verdict, stop, go, data_step, write_step, write_rounds}

-- The state that a round leaves.
abbrev pub state : Verdict → Server
state (stop c s) = s
state (go n s) = s

-- A block whose number has passed is acknowledged again and not stored. If it is shorter than a full
-- block, it ends the transfer with success all the same.
pub write_step-dup :
    (n next : ℕ) (s : Server)
    → get16 s.m_buffer 0 ≡ data_cmd
    → get16 s.m_buffer 2 < next
    → s.m_data_size ≡ pos n
    → s.sends ≡ []
    → let acked = record s {
      outbox =
          s.outbox ++ (record { to = s.m_client; payload = ack_packet (get16 s.m_buffer 2) } ∷ []);
    } in
      write_step next s ≡ (if ltb n 516 then stop ok acked else go next acked)
unfolding write_step data_step
write_step-dup n next s hc hn hd hs =
    simp (hd, hc, send_ack_lem (get16 s.m_buffer 2) s hs) (ground arith)

-- Every element is a byte.
abbrev pub IsBytes : Bytes → Type 0
IsBytes [] = Unit
IsBytes (b ∷ bs) = (b < 256) × IsBytes bs

-- Every datagram consists of bytes.
abbrev pub AreBytes : List Recv → Type 0
AreBytes [] = Unit
AreBytes (lost e ∷ rs) = AreBytes rs
AreBytes (datagram from d ∷ rs) = IsBytes d × AreBytes rs

get_or-IsBytes : (b : Bytes) (i : ℕ) → IsBytes b → get_or b i 0 < 256
get_or-IsBytes [] i h = omega arith
get_or-IsBytes (x ∷ b) zero h = h.0
get_or-IsBytes (x ∷ b) (suc i) h = get_or-IsBytes b i h.1

overlay-IsBytes : (d b : Bytes) → IsBytes d → IsBytes b → IsBytes (overlay d b)
overlay-IsBytes [] b h k = k
overlay-IsBytes (x ∷ d) [] h k = tt
overlay-IsBytes (x ∷ d) (y ∷ b) h k = (h.0, overlay-IsBytes d b h.1 k.1)

get16-lt : (b : Bytes) (i : ℕ) → IsBytes b → get16 b i < 65536
get16-lt b i h = omega (arith, get_or-IsBytes b i h, get_or-IsBytes b (i + 1) h)

-- The file, the buffer and the number of the next block are as they were.
abbrev Keeps : ℕ → Server → Verdict → Type 0
Keeps next s (stop c s') = s'.file ≡ s.file
Keeps next s (go n s') = (n ≡ next) × (s'.file ≡ s.file) × (s'.m_buffer ≡ s.m_buffer)

write_step-Keeps :
    (next : ℕ) (s : Server) → 65536 ≤ next → IsBytes s.m_buffer → Keeps next s (write_step next s)
unfolding write_step data_step
write_step-Keeps next s h k =
    ground (arith, get16-lt s.m_buffer 2 k, send_ack_keeps (get16 s.m_buffer 2) s)

recv_keeps : (r : Recv) (s : Server) → (recv r s).file ≡ s.file
unfolding recv
recv_keeps (lost e) s = refl
recv_keeps (datagram from d) s = refl

recv-IsBytes :
    (r : Recv) (rs : List Recv) (s : Server)
    → IsBytes s.m_buffer
    → AreBytes (r ∷ rs)
    → IsBytes (recv r s).m_buffer × AreBytes rs
unfolding recv
recv-IsBytes (lost e) rs s h a = (h, a)
recv-IsBytes (datagram from d) rs s h a = (overlay-IsBytes d s.m_buffer a.0 h, a.1)

-- After 65535 blocks no number of a packet reaches the next block's, and nothing more is stored,
-- whatever comes in and however the transfer ends.
pub write_rounds-file :
    (inbox : List Recv) (next : ℕ) (s : Server)
    → 65536 ≤ next
    → IsBytes s.m_buffer
    → AreBytes inbox
    → (write_rounds inbox next s).2.file ≡ s.file
write_rounds-file [] next s h k a = unfold write_rounds in recv_keeps (lost true) s
write_rounds-file (r ∷ inbox) next s h k a =
    let bytes = recv-IsBytes r inbox s k a in
    let keeps = write_step-Keeps next (recv r s) h bytes.0 in
    elim (Verdict-cases (write_step next (recv r s))) [
      | inl (c, s', e) ↦
          ap (λ out. out.2.file) (write_rounds-stop r inbox next s s' c e)
          ∙ rw e at keeps
          ∙ recv_keeps r s
      | inr (n, s', e) ↦
          let kept = rw e at keeps in
          ap (λ out. out.2.file) (write_rounds-go r inbox next n s s' e)
          ∙ write_rounds-file inbox n s' (omega arith) (rw kept.2 bytes.0) bytes.1
          ∙ kept.1
          ∙ recv_keeps r s
    ]
