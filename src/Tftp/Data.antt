-- ===== src/Tftp/Data.antt =====
-- The file side of components/internals/esp32/tftp_server.c: `TFTP_on_read`, `TFTP_on_write`,
-- `TFTP_on_read_data`, `TFTP_on_write_data`, `TFTP_on_close`.
pub mod Loops
use esp32_berry_lang.Base.{ℕ, zero, suc, Bytes, [], ◌∷◌, Option, none, some}
use esp32_berry_lang.Base.Int.{ℤ, pos_part}
use esp32_berry_lang.Stdio.{Stream, fputc}
use esp32_berry_lang.Tftp.Machine.{Code, failed, ok, Server}

-- `F_OPEN`: the route to the stream is the file system's.
abbrev pub Open : Type 0
Open = Bytes → Bytes → Option Stream

abbrev opened : Option Stream → Server → Code × Server
opened none s = (failed, record s { file = none })
opened (some st) s = (ok, record s { file = some st })

-- `TFTP_on_read`, with mode "r"
unfoldable pub on_read : Open → Bytes → Server → Code × Server
on_read open_file name s = opened (open_file name (b'r' ∷ [])) s

-- `TFTP_on_write`, with mode "w"
unfoldable pub on_write : Open → Bytes → Server → Code × Server
on_write open_file name s = opened (open_file name (b'w' ∷ [])) s

-- `while ((ch = getc(f)) != EOF && cnt < len) { buffer[cnt] = ch; ++cnt; }`, with `left` for
-- `len - cnt` and the destination from `buffer[cnt]` on. A byte is taken from the stream before
-- the room is tested. The result is `cnt`, the destination and what is left of the stream.
unfoldable pub read_loop : Bytes → ℕ → Bytes → ℕ × Bytes × Bytes
read_loop [] left dst = (0, dst, [])
read_loop (c ∷ cs) zero dst = (0, dst, cs)
read_loop (c ∷ cs) (suc left) [] = let (n, d, r) = read_loop cs left [] in (suc n, d, r)
read_loop (c ∷ cs) (suc left) (y ∷ dst) = let (n, d, r) = read_loop cs left dst in (suc n, c ∷ d, r)

-- `TFTP_on_read_data` into the bytes of `dst`, from the stream `st`.
unfoldable pub on_read_data : Stream → ℕ → Bytes → ℕ × Bytes × Stream
unfolding read_loop
on_read_data st len dst =
    let (n, d, r) = read_loop st.rest len dst in (n, d, record st { rest = r })

-- `buffer[cnt]`, with the byte behind the buffer past its end
abbrev pub head_or : Bytes → ℕ → ℕ
head_or [] beyond = beyond
head_or (c ∷ cs) beyond = c

abbrev pub tail : Bytes → Bytes
tail [] = []
tail (c ∷ cs) = cs

-- `while (fputc(buffer[cnt], f) != EOF && cnt < len) ++cnt;`, with `left` for `len - cnt` and the
-- source from `buffer[cnt]` on. A byte is written before the length is tested.
unfoldable pub write_loop : ℕ → ℕ → Bytes → Stream → ℕ × Stream
write_loop beyond zero src st = elim (fputc (head_or src beyond) st) [
  | none ↦ (0, st)
  | some st' ↦ (0, st')
]
write_loop beyond (suc left) src st = elim (fputc (head_or src beyond) st) [
  | none ↦ (0, st)
  | some st' ↦ let (n, st'') = write_loop beyond left (tail src) st' in (suc n, st'')
]

-- `TFTP_on_write_data`; a negative `len` acts as 0. `f` is never NULL here: `process_write` runs only
-- after `on_write` has opened the file.
unfoldable pub on_write_data : ℤ → Bytes → Server → Server
unfolding write_loop
on_write_data len src s = elim s.file [
  | none ↦ s
  | some st ↦ record s { file = some (write_loop s.beyond (pos_part len) src st).1 }
]

-- `TFTP_on_close`: `f` keeps its value.
unfoldable pub on_close : Server → Server
on_close s = elim s.file [ none ↦ s | some st ↦ record s { closed = st ∷ s.closed } ]
