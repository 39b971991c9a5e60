-- ===== src/Tftp/Request/Named.antt =====
-- The name in a request: `TFTP_parse_wrq` and `TFTP_parse_rrq` on a packet with a name and a mode.
use esp32_berry_lang.Base.{
  ℕ, ◌≤◌, ◌==◌, ◌≢◌, none, Bytes, [], ◌∷◌, ◌++◌, some, length, drop, overlay, ◌≡◌, ◌∙◌, refl, ap,
  append_assoc, overlay-eq-append, false, Bool-cases, Option-cases, inl, inr, arith,
}
use esp32_berry_lang.Tftp.Machine.{Code, failed, ok, again, Server}
use esp32_berry_lang.Tftp.Data.{Open, on_read, on_write}
use esp32_berry_lang.Tftp.Request.{
  c_string, strings, answer_wrq, named_wrq, parse_wrq, answer_rrq, named_rrq, parse_rrq,
}

-- No NUL stands in the text.
abbrev pub IsText : Bytes → Type 0
IsText [] = Unit
IsText (c ∷ text) = ((c == 0) ≡ false) × IsText text

-- A name and a mode, each with its NUL, and what stands behind them
abbrev pub named : Bytes → Bytes → Bytes → Bytes
named name mode rest = name ++ (0 ∷ (mode ++ (0 ∷ rest)))

-- The packet of a request
abbrev pub request_packet : ℕ → Bytes → Bytes → Bytes
request_packet cmd name mode = 0 ∷ cmd ∷ named name mode []

c_string_lem : (text rest : Bytes) → IsText text → c_string (text ++ (0 ∷ rest)) ≡ some (text, rest)
unfolding c_string
c_string_lem [] rest h = refl
c_string_lem (c ∷ text) rest h = simp (h.0, c_string_lem text rest h.1)

append-named :
    (name mode rest more : Bytes) → named name mode rest ++ more ≡ named name mode (rest ++ more)
append-named name mode rest more =
    append_assoc name (0 ∷ (mode ++ (0 ∷ rest))) more
    ∙ ap (λ w. name ++ (0 ∷ w)) (append_assoc mode (0 ∷ rest) more)

-- Two C strings stand at the start.
pub record HasStrings (d : Bytes) : Type 0 where
  pub name : Bytes
  pub behind : Bytes
  pub mode : Bytes
  pub ptr : Bytes
  pub first : c_string d ≡ some (name, behind)
  pub second : c_string behind ≡ some (mode, ptr)

parts : (p q : Bytes × Bytes) → some p ≡ some q → (q.0 ≡ p.0) × (q.1 ≡ p.1)
parts p q h = let same : q ≡ p = cc in (ap (λ r. r.0) same, ap (λ r. r.1) same)

c_string-append :
    (d more name behind : Bytes)
    → c_string d ≡ some (name, behind)
    → c_string (d ++ more) ≡ some (name, behind ++ more)
unfolding c_string
c_string-append [] more name behind h = cc
c_string-append (c ∷ d) more name behind h = elim (Bool-cases (c == 0)) [
  | inl z ↦ let (n, b) = parts ([], d) (name, behind) (rw z at h) in simp (z, n, b)
  | inr nz ↦ elim (Option-cases (c_string d)) [
    | inl e ↦ absurd (ground arith)
    | inr ((text, b), e) ↦
        let ih = c_string-append d more text b e in
        let (n, m) = parts (c ∷ text, b) (name, behind) (rw (nz, e) at h) in simp (nz, ih, n, m)
  ]
]

HasStrings-append : (d more : Bytes) → HasStrings d → HasStrings (d ++ more)
HasStrings-append d more h = record {
  name = h.name;
  behind = h.behind ++ more;
  mode = h.mode;
  ptr = h.ptr ++ more;
  first = c_string-append d more h.name h.behind h.first;
  second = c_string-append h.behind more h.mode h.ptr h.second;
}

-- The strings of a packet stay when what it does not cover follows them.
pub HasStrings-overlay :
    (d b : Bytes) → length d ≤ length b → HasStrings d → HasStrings (overlay d b)
HasStrings-overlay d b h has =
    rw (overlay-eq-append d b h) (HasStrings-append d (drop (length d) b) has)

strings_both :
    (s : Server) (name behind mode ptr : Bytes)
    → c_string (drop 2 s.m_buffer) ≡ some (name, behind)
    → c_string behind ≡ some (mode, ptr)
    → strings s ≡ some (name, ptr)
strings_both s name behind mode ptr h k = rw (h, strings) (rw k refl)

strings-HasStrings :
    (s : Server) (h : HasStrings (drop 2 s.m_buffer)) → strings s ≡ some (h.name, h.ptr)
strings-HasStrings s h = strings_both s h.name h.behind h.mode h.ptr h.first h.second

-- The strings of a request that has come into the buffer
pub strings_lem :
    (cmd : ℕ) (name mode : Bytes) (b : Bytes) (s : Server)
    → IsText name
    → IsText mode
    → length (request_packet cmd name mode) ≤ length b
    → s.m_buffer ≡ overlay (request_packet cmd name mode) b
    → strings s ≡ some (name, drop (length (request_packet cmd name mode)) b)
strings_lem cmd name mode b s hn hm h e =
    let rest = drop (length (request_packet cmd name mode)) b in
    let buffer : s.m_buffer ≡ 0 ∷ cmd ∷ named name mode rest =
      e
      ∙ overlay-eq-append (request_packet cmd name mode) b h
      ∙ ap (λ w. 0 ∷ cmd ∷ w) (append-named name mode [] rest) in
    strings_both s name _ mode rest
      (ap (λ m. c_string (drop 2 m)) buffer ∙ c_string_lem name (mode ++ (0 ∷ rest)) hn)
      (c_string_lem mode rest hm)

answer_wrq-ne-none : (ptr : Bytes) (c : Code) (s : Server) → answer_wrq ptr (c, s) ≢ none
unfolding answer_wrq
answer_wrq-ne-none ptr failed s e = cc
answer_wrq-ne-none ptr ok s e = cc
answer_wrq-ne-none ptr again s e = cc

answer_rrq-ne-none : (c : Code) (s : Server) → answer_rrq (c, s) ≢ none
unfolding answer_rrq
answer_rrq-ne-none failed s e = cc
answer_rrq-ne-none ok s e = cc
answer_rrq-ne-none again s e = cc

-- With its strings, a request is parsed within the buffer.
pub parse_wrq-ne-none :
    (open_file : Open) (s : Server) → HasStrings (drop 2 s.m_buffer) → parse_wrq open_file s ≢ none
unfolding parse_wrq named_wrq
parse_wrq-ne-none open_file s has =
    let opened = on_write open_file has.name s in
    rw (strings-HasStrings s has) (answer_wrq-ne-none has.ptr opened.0 opened.1)

pub parse_rrq-ne-none :
    (open_file : Open) (s : Server) → HasStrings (drop 2 s.m_buffer) → parse_rrq open_file s ≢ none
unfolding parse_rrq named_rrq
parse_rrq-ne-none open_file s has =
    let opened = on_read open_file has.name s in
    rw (strings-HasStrings s has) (answer_rrq-ne-none opened.0 opened.1)
