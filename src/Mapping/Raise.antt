-- ===== src/Mapping/Raise.antt =====
-- `be_raisef`, components/berry/berry_mapping/src/be_raisef.c. The text is what the format and its
-- arguments stand for, without the 0 at its end.
use esp32_berry_lang.Base.{
  ℕ, ◌+◌, ◌-◌, ◌≤◌, ◌<◌, ◌%◌, ◌^◌, ◌≡◌, ◌⊎◌, inl, inr, refl, true, false, ltb, Bytes, ◌++◌, codes,
  length, take, length-take, length-append, take_all, if◌then◌else◌, arith,
}

-- The C library's `vsnprintf` with room for `size` bytes, the last of them 0: what is written, and
-- the length of the whole text
unfoldable pub vsnprintf : ℕ → Bytes → Bytes × ℕ
vsnprintf size text = (take (size - 1) text, length text)

abbrev pub sizeof_log_data : ℕ
sizeof_log_data = 128

-- `log_data`; `len` has 32 bits.
unfoldable pub log_data : Bytes → Bytes
log_data text =
    let (written, len) = vsnprintf (sizeof_log_data - 3) text in
    if ltb sizeof_log_data ((len + 3) % 2 ^ 32) then written ++ codes "..." else written

-- `be_raisef`: the exception and the message that are raised
unfoldable pub be_raisef : Bytes → Bytes → Bytes × Bytes
be_raisef except text = (except, log_data text)

-- How a message stands for a text
pub data Shortened : Bytes → Bytes → Type 0 where
  whole : (text : Bytes) → length text ≤ 124 → Shortened text text
  cut : (text : Bytes) → length text ≡ 125 → Shortened text (take 124 text)
  dotted : (text : Bytes) → 125 < length text → Shortened text (take 124 text ++ codes "...")

fits_whole : (n : ℕ) → n ≤ 125 → ltb 128 ((n + 3) % 2 ^ 32) ≡ false
fits_whole n h = ground (arith, h)

is_over : (n : ℕ) → n < 2 ^ 31 → 125 < n → ltb 128 ((n + 3) % 2 ^ 32) ≡ true
is_over n h k = ground (arith, h, k)

cut-Shortened : (text : Bytes) → length text < 2 ^ 31 → Shortened text (log_data text)
unfolding log_data vsnprintf
cut-Shortened text h = elim (sizes (length text)) [
  | inl short ↦
      rw (fits_whole (length text) (omega (arith, short)), take_all 124 text short)
        (whole text short)
  | inr (inl edge) ↦ rw (fits_whole (length text) (omega (arith, edge))) (cut text edge)
  | inr (inr long) ↦ rw (is_over (length text) h long) (dotted text long)
]
  where
    sizes : (n : ℕ) → (n ≤ 124) ⊎ (n ≡ 125) ⊎ (125 < n)
    sizes n = ground arith

Shortened-length : {text msg : Bytes} → Shortened text msg → length msg < sizeof_log_data
Shortened-length (whole text h) = omega (arith, h)
Shortened-length (cut text h) = omega (arith, length-take 124 text)
Shortened-length (dotted text h) =
    omega (arith, length-take 124 text, length-append (take 124 text) (codes "..."))

-- `be_raisef` raises the exception with the whole text if it has at most 124 bytes, with its first 124
-- bytes and three dots if it has more than 125, and with its first 124 bytes alone if it has 125; the
-- message and its end fit in the 128 bytes of the buffer.
pub be_raisef-Shortened :
    (except text : Bytes)
    → length text < 2 ^ 31
    → ((be_raisef except text).0 ≡ except)
      × Shortened text (be_raisef except text).1
      × (length (be_raisef except text).1 < sizeof_log_data)
unfolding be_raisef
be_raisef-Shortened except text h = let s = cut-Shortened text h in (refl, s, Shortened-length s)
