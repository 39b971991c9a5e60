-- ===== src/Files/Streams.antt =====
-- Open files as Berry uses them, components/berry/port/be_port.c: `be_fwrite`, `be_fread`, `be_fgets`,
-- `be_fseek`, `be_ftell`, `be_fsize`, on a regular file of the language's library, whose calls succeed.
use esp32_berry_lang.Base.{
  ℕ, zero, suc, ◌+◌, ◌==◌, Bytes, [], ◌∷◌, ◌++◌, Option, none, some, length, take, drop, replicate,
  ◌-◌, if◌then◌else◌,
}

-- The bytes of the file, and the offset.
pub record File : Type 0 where
  pub content : Bytes
  pub offset : ℕ

-- `fwrite(buffer, 1, length, hfile)`: the bytes go over those at the offset; a gap before it reads 0.
unfoldable pub be_fwrite : Bytes → File → ℕ × File
be_fwrite [] f = (0, f)
be_fwrite (c ∷ more) f =
    let buffer = c ∷ more in
    let front = take f.offset (f.content ++ replicate (f.offset - length f.content) 0) in
    (
      length buffer,
      record {
        content = front ++ (buffer ++ drop (f.offset + length buffer) f.content);
        offset = f.offset + length buffer;
      },
    )

-- `fread(buffer, 1, length, hfile)`: the bytes that are there
unfoldable pub be_fread : ℕ → File → Bytes × File
be_fread n f =
    let read = take n (drop f.offset f.content) in
    (read, record f { offset = f.offset + length read })

-- The bytes up to a newline, at most `room` of them
unfoldable pub line_of : ℕ → Bytes → Bytes
line_of zero rest = []
line_of (suc room) [] = []
line_of (suc room) (c ∷ rest) =
    let more = line_of room rest in if c == b'\n' then c ∷ [] else c ∷ more

-- NULL at the end of the file
unfoldable pub line_or_null : Bytes → Option Bytes
line_or_null [] = none
line_or_null (c ∷ line) = some (c ∷ line)

-- `fgets(buffer, size, hfile)`, for a size of two or more
unfoldable pub be_fgets : ℕ → File → Option Bytes × File
be_fgets size f =
    let line = line_of (size - 1) (drop f.offset f.content) in
    (line_or_null line, record f { offset = f.offset + length line })

-- `fseek(hfile, offset, SEEK_SET)`
unfoldable pub be_fseek : ℕ → File → File
be_fseek offset f = record f { offset = offset }

-- `fseek(hfile, 0L, SEEK_END)`
unfoldable pub seek_end : File → File
seek_end f = record f { offset = length f.content }

-- `ftell(hfile)`
unfoldable pub be_ftell : File → ℕ
be_ftell f = f.offset

-- `be_fsize`
unfoldable pub be_fsize : File → ℕ × File
be_fsize f =
    let offset = be_ftell f in let at_end = seek_end f in (be_ftell at_end, be_fseek offset at_end)
