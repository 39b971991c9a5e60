-- ===== src/Tftp/Write/Steps.antt =====
-- A round of an upload on a packet that is only acknowledged: a block that has passed, or the request.
use esp32_berry_lang.Base.{
  ℕ, ◌+◌, ◌*◌, ◌≤◌, ◌<◌, Bytes, [], ◌∷◌, ◌++◌, length, drop, overlay, ◌≡◌, refl, arith, ◌∙◌,
}
use esp32_berry_lang.Base.Int.{pos}
use esp32_berry_lang.Tftp.Wire.{wrq, hi, lo, get16}
use esp32_berry_lang.Tftp.Machine.{datagram, Server, ack_packet, recv}
use esp32_berry_lang.Tftp.Machine.Sends.{send_ack_lem}
use esp32_berry_lang.Tftp.Write.{go, write_step}
use esp32_berry_lang.Tftp.Write.Blocks.{write_step-dup}
use esp32_berry_lang.Tftp.Write.Upload.{data_packet, word_lem}

-- The state after a packet that is only acknowledged, with `block`
abbrev pub only_acked : Server → ℕ → ℕ → Bytes → Server
only_acked s from block d = record s {
  m_client = from;
  m_buffer = overlay d s.m_buffer;
  m_data_size = pos (length d);
  outbox = s.outbox ++ (record { to = from; payload = ack_packet block } ∷ []);
}

pub get16_header :
    (a b x y : ℕ) (q m : Bytes)
    → length m ≡ 516
    → (get16 (overlay (a ∷ b ∷ x ∷ y ∷ q) m) 0 ≡ a * 256 + b)
      × (get16 (overlay (a ∷ b ∷ x ∷ y ∷ q) m) 2 ≡ x * 256 + y)
      × (drop 4 (overlay (a ∷ b ∷ x ∷ y ∷ q) m) ≡ overlay q (drop 4 m))
get16_header a b x y q (m0 ∷ m1 ∷ m2 ∷ m3 ∷ m) h = (refl, refl, refl)
get16_header a b x y q [] h = absurd (omega arith)
get16_header a b x y q (m0 ∷ []) h = absurd (omega arith)
get16_header a b x y q (m0 ∷ m1 ∷ []) h = absurd (omega arith)
get16_header a b x y q (m0 ∷ m1 ∷ m2 ∷ []) h = absurd (omega arith)

pub recv_short :
    (s : Server) (from : ℕ) (d : Bytes)
    → length d ≤ 516
    → recv (datagram from d) s
      ≡ record s { m_client = from; m_buffer = overlay d s.m_buffer; m_data_size = pos (length d) }
unfolding recv
recv_short s from d h = ground arith

pub step-repeated :
    (s : Server) (from next k : ℕ) (q : Bytes)
    → s.sends ≡ []
    → length s.m_buffer ≡ 516
    → k < next
    → k < 65536
    → length q ≡ 512
    → write_step next (recv (datagram from (data_packet k q)) s)
      ≡ go next (only_acked s from k (data_packet k q))
step-repeated s from next k q hs hb hk hw hq =
    let (code, block, rest) = get16_header 0 3 (hi k) (lo k) q s.m_buffer hb in
    let number = block ∙ word_lem k hw in
    let size : length (data_packet k q) ≡ 516 = omega arith in
    let seen : Server = record s {
      m_client = from;
      m_buffer = overlay (data_packet k q) s.m_buffer;
      m_data_size = pos (length (data_packet k q));
    } in
    rw (recv_short s from (data_packet k q) (omega arith))
      (write_step-dup 516 next seen code (omega (arith, number)) (rw size refl) hs ∙ simp number)

pub step-request :
    (s : Server) (from next x y : ℕ) (q : Bytes)
    → next ≡ 1
    → s.sends ≡ []
    → length s.m_buffer ≡ 516
    → length q ≤ 512
    → write_step next (recv (datagram from (hi wrq ∷ lo wrq ∷ x ∷ y ∷ q)) s)
      ≡ go next (only_acked s from 0 (hi wrq ∷ lo wrq ∷ x ∷ y ∷ q))
unfolding write_step
step-request s from next x y q h1 hs hb hq =
    let (code, block, rest) = get16_header 0 2 x y q s.m_buffer hb in
    rw (h1, recv_short s from (0 ∷ 2 ∷ x ∷ y ∷ q) (omega arith))
      (simp (code, send_ack_lem 0 _ hs) (ground arith))
