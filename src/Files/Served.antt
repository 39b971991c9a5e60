-- ===== src/Files/Served.antt =====
-- The requests of the TFTP server, components/internals/esp32/tftp_server.c, over the wrapper of the
-- file system.
use esp32_berry_lang.Base.{
  ℕ, suc, ◌≡◌, refl, ap, ◌∙◌, false, Bytes, Option, List, ◌∷◌, [], none, some, codes,
}
use esp32_berry_lang.Stdio.{Stream}
use esp32_berry_lang.Tftp.Wire.{rrq, wrq, get16, file_not_found, access_violation}
use esp32_berry_lang.Tftp.Machine.{failed, ok, Recv, Server, send_error}
use esp32_berry_lang.Tftp.Data.{on_read, on_write}
use esp32_berry_lang.Tftp.Request.Rounds.{dispatch_read, dispatch_write, round_ends}
use esp32_berry_lang.Tftp.Request.{
  strings, answer_wrq, named_wrq, parse_wrq, answer_rrq, named_rrq, parse_rrq, done, serve_wrq,
  serve_rrq, parse_rq,
}
use esp32_berry_lang.Files.LittleFs.{Vfs, Mount, littlefs_fopen}
use esp32_berry_lang.Files.Open.{file_of, f_open}

-- The error that answers a request whose file cannot be opened, by its command
pub data Refusal : ℕ → ℕ → Type 0 where
  read_refused : Refusal rrq file_not_found
  write_refused : Refusal wrq access_violation

module _ {M Dir : Type 0} (beyond : Bytes → Bytes → Option Stream) (vfs : Vfs M Stream Dir)
    (disk : Mount M) where
  f_open_unmounted :
      (file mode : Bytes)
      → disk.littlefs_initialized ≡ false
      → f_open beyond vfs disk file mode ≡ none
  unfolding f_open file_of littlefs_fopen
  f_open_unmounted file mode h = simp h

  parse_rrq_unmounted :
      (s : Server) (filename ptr : Bytes)
      → disk.littlefs_initialized ≡ false
      → strings s ≡ some (filename, ptr)
      → parse_rrq (f_open beyond vfs disk) s
        ≡ some (
          failed,
          send_error file_not_found (codes "cannot open file") (record s { file = none }),
        )
  unfolding parse_rrq named_rrq answer_rrq on_read
  parse_rrq_unmounted s filename ptr h named =
      ap (λ found. named_rrq (f_open beyond vfs disk) found s) named
      ∙ rw (f_open_unmounted filename (b'r' ∷ []) h) refl

  parse_wrq_unmounted :
      (s : Server) (filename ptr : Bytes)
      → disk.littlefs_initialized ≡ false
      → strings s ≡ some (filename, ptr)
      → parse_wrq (f_open beyond vfs disk) s
        ≡ some (
          failed,
          send_error access_violation (codes "cannot open file") (record s { file = none }),
        )
  unfolding parse_wrq named_wrq answer_wrq on_write
  parse_wrq_unmounted s filename ptr h named =
      ap (λ found. named_wrq (f_open beyond vfs disk) found s) named
      ∙ rw (f_open_unmounted filename (b'w' ∷ []) h) refl

  -- While the file system is not mounted, a request with a name and a mode is answered with an error,
  -- file not found for reading and access violation for writing: the server returns at once with
  -- success, with no file open, and reads nothing more from the network.
  pub parse_rq_unmounted :
      (fuel : ℕ) (inbox : List Recv) (s : Server) (cmd code : ℕ) (filename ptr : Bytes)
      → disk.littlefs_initialized ≡ false
      → strings s ≡ some (filename, ptr)
      → get16 s.m_buffer 0 ≡ cmd
      → Refusal cmd code
      → parse_rq (f_open beyond vfs disk) (suc fuel) inbox s
        ≡ done ok inbox (send_error code (codes "cannot open file") (record s { file = none }))
  unfolding parse_rq serve_rrq serve_wrq
  parse_rq_unmounted fuel inbox s cmd code filename ptr h named e read_refused =
      round_ends (f_open beyond vfs disk) fuel failed inbox inbox s _ (
        dispatch_read (f_open beyond vfs disk) failed inbox s e
        ∙ ap (serve_rrq inbox) (parse_rrq_unmounted s filename ptr h named))
  parse_rq_unmounted fuel inbox s cmd code filename ptr h named e write_refused =
      round_ends (f_open beyond vfs disk) fuel failed inbox inbox s _ (
        dispatch_write (f_open beyond vfs disk) failed inbox s e
        ∙ ap (serve_wrq inbox) (parse_wrq_unmounted s filename ptr h named))
