-- ===== src/Stdio.antt =====
-- C streams as the firmware uses them (getc, fputc, fclose of the language's library): what is still
-- to be read, what has been written, and how many more bytes the medium takes.
use esp32_berry_lang.Base.{ℕ, zero, suc, Bytes, [], ◌∷◌, ◌++◌, Option, none, some}

pub record Stream : Type 0 where
  pub rest : Bytes
  pub written : Bytes
  pub room : ℕ

-- `getc`: `none` is EOF.
abbrev pub getc : Bytes → Option (ℕ × Bytes)
getc [] = none
getc (c ∷ cs) = some (c, cs)

abbrev pub put_room : ℕ → ℕ → Stream → Option Stream
put_room zero c st = none
put_room (suc n) c st = some (record st { written = st.written ++ c ∷ []; room = n })

-- `fputc`: `none` is EOF, when the medium is full.
abbrev pub fputc : ℕ → Stream → Option Stream
fputc c st = put_room st.room c st
