-- ===== src/Tftp/Request/Ends.antt =====
-- Which requests come to an end.
use esp32_berry_lang.Base.{
  ℕ, ◌+◌, ◌*◌, ◌<◌, ◌≤◌, Bytes, List, [], ◌∷◌, some, none, length, ◌≡◌, ◌≢◌, ◌⊎◌, inl, inr, refl,
  ap, arith, ◌∙◌, Option, false, length-overlay, overlay, drop, sym,
}
use esp32_berry_lang.Base.Int.{pos, ltb_ℤ, ◌-ℤ◌}
use esp32_berry_lang.Tftp.Wire.{rrq, wrq, data_cmd, get16}
use esp32_berry_lang.Tftp.Machine.{
  Code, ok, failed, again, Recv, lost, datagram, Server, recv, send_ack,
}
use esp32_berry_lang.Tftp.Machine.Sends.{send_ack_keeps, sendto-buffer}
use esp32_berry_lang.Tftp.Data.{Open, on_write, on_close, on_write_data}
use esp32_berry_lang.Tftp.Write.{Verdict, stop, go, data_step, write_step, write_rounds}
use esp32_berry_lang.Tftp.Write.Rounds.{Verdict-cases, write_rounds-stop, write_rounds-go}
use esp32_berry_lang.Tftp.Request.{accept_wrq, answer_wrq, named_wrq, blksize_reply}
use esp32_berry_lang.Tftp.Request.Named.{HasStrings, HasStrings-overlay}

-- A command that `TFTP_parse_rq` knows stands in the buffer.
abbrev pub IsRequest : Bytes → Type 0
IsRequest b = (get16 b 0 ≡ rrq) ⊎ (get16 b 0 ≡ wrq)

-- A datagram that begins with a DATA command, or is a request of at most 516 bytes with its strings.
abbrev pub IsKnown : Recv → Type 0
IsKnown (lost e) = Unit
IsKnown (datagram from []) = ⊥
IsKnown (datagram from (a ∷ [])) = ⊥
IsKnown (datagram from (a ∷ b ∷ d)) =
    (a * 256 + b ≡ data_cmd)
    ⊎ (((a * 256 + b ≡ rrq) ⊎ (a * 256 + b ≡ wrq)) × (length d ≤ 514) × HasStrings d)

-- The buffer holds a request with its strings.
abbrev pub IsWhole : Bytes → Type 0
IsWhole b = IsRequest b × HasStrings (drop 2 b)

abbrev pub AreKnown : List Recv → Type 0
AreKnown [] = Unit
AreKnown (r ∷ rs) = IsKnown r × AreKnown rs

on_write_data-buffer :
    (n : _) (src : Bytes) (s : Server) → (on_write_data n src s).m_buffer ≡ s.m_buffer
unfolding on_write_data
on_write_data-buffer n src s = ground arith

-- The buffer that a round leaves is the one that it found.
abbrev pub BufferOf : Bytes → Verdict → Type 0
BufferOf b (stop c s) = s.m_buffer ≡ b
BufferOf b (go n s) = s.m_buffer ≡ b

pub write_step-buffer : (next : ℕ) (s : Server) → BufferOf s.m_buffer (write_step next s)
unfolding write_step data_step
write_step-buffer next s =
    let block = get16 s.m_buffer 2 in
    let acked = send_ack block s in
    ground (
      arith,
      send_ack_keeps 0 s,
      send_ack_keeps block s,
      on_write_data-buffer (s.m_data_size -ℤ pos 4) (drop 4 acked.m_buffer) acked,
    )

-- A round asks for another look at the request only at a packet that is no DATA packet.
write_step-again :
    (next : ℕ) (s s' : Server)
    → write_step next s ≡ stop again s'
    → (s' ≡ s) × (get16 s.m_buffer 0 ≢ data_cmd) × (ltb_ℤ s.m_data_size (pos 0) ≡ false)
unfolding write_step data_step
write_step-again next s s' e = ground arith

pub get16-overlay :
    (a b : ℕ) (d buf : Bytes) → 2 ≤ length buf → get16 (overlay (a ∷ b ∷ d) buf) 0 ≡ a * 256 + b
get16-overlay a b d [] h = absurd (omega arith)
get16-overlay a b d (x ∷ []) h = absurd (omega arith)
get16-overlay a b d (x ∷ y ∷ buf) h = refl

overlay-HasStrings :
    (a b : ℕ) (d buf : Bytes)
    → length d ≤ 514
    → 516 ≤ length buf
    → HasStrings d
    → HasStrings (drop 2 (overlay (a ∷ b ∷ d) buf))
overlay-HasStrings a b d [] l h has = absurd (omega arith)
overlay-HasStrings a b d (x ∷ []) l h has = absurd (omega arith)
overlay-HasStrings a b d (x ∷ y ∷ buf) l h has = HasStrings-overlay d buf (omega arith) has

recv-IsWhole :
    (r : Recv) (s : Server)
    → IsKnown r
    → 516 ≤ length s.m_buffer
    → get16 (recv r s).m_buffer 0 ≢ data_cmd
    → ltb_ℤ (recv r s).m_data_size (pos 0) ≡ false
    → IsWhole (recv r s).m_buffer
unfolding recv
recv-IsWhole (lost e) s k h ne f = cc
recv-IsWhole (datagram from []) s k h ne f = absurd k
recv-IsWhole (datagram from (a ∷ [])) s k h ne f = absurd k
recv-IsWhole (datagram from (a ∷ b ∷ d)) s k h ne f =
    let code = get16-overlay a b d s.m_buffer (omega (arith, h)) in
    elim k [
      | inl e ↦ absurd (ne (code ∙ e))
      | inr (e, l, has) ↦ (
        elim e [ inl q ↦ inl (code ∙ q) | inr q ↦ inr (code ∙ q) ],
        overlay-HasStrings a b d s.m_buffer l h has,
      )
    ]

length-recv : (r : Recv) (s : Server) → length (recv r s).m_buffer ≡ length s.m_buffer
unfolding recv
length-recv (lost e) s = refl
length-recv (datagram from d) s = length-overlay d s.m_buffer

-- What is known when a transfer ends with a call for another look at the request.
pub record Resumes (inbox rest : List Recv) (s : Server) : Type 0 where
  pub fewer : length rest < length inbox
  pub known : AreKnown rest
  pub request : IsWhole s.m_buffer
  pub sized : 516 ≤ length s.m_buffer

Resumes-cons :
    {inbox rest : List Recv} {s : Server} (r : Recv)
    → Resumes inbox rest s
    → Resumes (r ∷ inbox) rest s
Resumes-cons r v = record {
  fewer = omega (arith, v.fewer);
  known = v.known;
  request = v.request;
  sized = v.sized;
}

Resumes-here :
    (r : Recv) (inbox rest : List Recv) (next : ℕ) (s t : Server)
    → AreKnown (r ∷ inbox)
    → 516 ≤ length s.m_buffer
    → write_step next (recv r s) ≡ stop again t
    → rest ≡ inbox
    → Resumes (r ∷ inbox) rest t
Resumes-here r inbox rest next s t k h v q =
    let (same, ne, f) = write_step-again next (recv r s) t v in
    record {
      fewer = rw q (omega arith);
      known = rw q k.1;
      request = rw same (recv-IsWhole r s k.0 h ne f);
      sized = rw same (omega (arith, length-recv r s));
    }

pub write_rounds-Resumes :
    (inbox rest : List Recv) (next : ℕ) (s s' : Server)
    → AreKnown inbox
    → 516 ≤ length s.m_buffer
    → write_rounds inbox next s ≡ (again, rest, s')
    → Resumes inbox rest s'
write_rounds-Resumes [] rest next s s' k h e = unfold write_rounds in cc
write_rounds-Resumes (r ∷ inbox) rest next s s' k h e =
    elim (Verdict-cases (write_step next (recv r s))) [
      | inl (c, t, v) ↦
          let out = sym (write_rounds-stop r inbox next s t c v) ∙ e in
          Resumes-here r inbox rest next s s' k h (v ∙ cc out) (sym (ap (λ o. o.1) out))
      | inr (n, t, v) ↦ Resumes-cons r (
          write_rounds-Resumes inbox rest n t s' k.1
            (omega
              (arith, length-recv r s, ap length (rw v at (write_step-buffer next (recv r s)))))
            (sym (write_rounds-go r inbox next n s t v) ∙ e))
    ]

accept_wrq-buffer : (ptr : Bytes) (s : Server) → (accept_wrq ptr s).m_buffer ≡ s.m_buffer
unfolding accept_wrq
accept_wrq-buffer ptr s = ground (arith, send_ack_keeps 0 s, sendto-buffer blksize_reply s)

on_write-buffer :
    (open_file : Open) (name : Bytes) (s : Server)
    → (on_write open_file name s).1.m_buffer ≡ s.m_buffer
unfolding on_write
on_write-buffer open_file name s = ground arith

answer_wrq-buffer :
    (ptr : Bytes) (c : Code) (s s1 : Server)
    → answer_wrq ptr (c, s) ≡ some (ok, s1)
    → s1.m_buffer ≡ s.m_buffer
unfolding answer_wrq
answer_wrq-buffer ptr failed s s1 e = cc
answer_wrq-buffer ptr ok s s1 e = ground (arith, accept_wrq-buffer ptr s)
answer_wrq-buffer ptr again s s1 e = ground (arith, accept_wrq-buffer ptr s)

-- A write request that is accepted leaves the buffer alone.
pub named_wrq-buffer :
    (open_file : Open) (names : Option (Bytes × Bytes)) (s s1 : Server)
    → named_wrq open_file names s ≡ some (ok, s1)
    → s1.m_buffer ≡ s.m_buffer
unfolding named_wrq
named_wrq-buffer open_file none s s1 e = cc
named_wrq-buffer open_file (some (name, ptr)) s s1 e =
    let opened = on_write open_file name s in
    answer_wrq-buffer ptr opened.0 opened.1 s1 e ∙ on_write-buffer open_file name s

pub on_close-buffer : (s : Server) → (on_close s).m_buffer ≡ s.m_buffer
unfolding on_close
on_close-buffer s = ground arith
