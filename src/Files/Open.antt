-- ===== src/Files/Open.antt =====
-- `F_OPEN` of components/internals/internals.h for the TFTP server: a file of the wrapper is the
-- stream that it is read and written as.
use esp32_berry_lang.Base.{Bytes, Option}
use esp32_berry_lang.Stdio.{Stream}
use esp32_berry_lang.Files.LittleFs.{Vfs, Mount, Result, done, overflow, littlefs_fopen}

-- The file that is open; what becomes of a path past the bytes of `route` is given.
unfoldable pub file_of : {M : Type 0} → Option Stream → Result M (Option Stream) → Option Stream
file_of beyond (done file s) = file
file_of beyond overflow = beyond

-- `F_OPEN`
unfoldable pub f_open :
    {M Dir : Type 0}
    → (Bytes → Bytes → Option Stream)
    → Vfs M Stream Dir
    → Mount M
    → Bytes
    → Bytes
    → Option Stream
f_open beyond vfs s file mode = file_of (beyond file mode) (littlefs_fopen vfs file mode s)
