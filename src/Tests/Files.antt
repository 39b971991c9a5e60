-- ===== src/Tests/Files.antt =====
-- The file system's wrapper at concrete inputs.
use esp32_berry_lang.Base.{
  ℕ, Bytes, Option, ◌≡◌, refl, true, false, [], ◌∷◌, ◌++◌, replicate, codes, none, some,
}
use esp32_berry_lang.Base.Int.{pos}
use esp32_berry_lang.Files.LittleFs.{esp_ok, Vfs, Mount, done}
use esp32_berry_lang.Stdio.{Stream}
use esp32_berry_lang.Tftp.Wire.{rrq, file_not_found}
use esp32_berry_lang.Tftp.Machine.{ok, Server, send_error}
use esp32_berry_lang.Tftp.Request
use esp32_berry_lang.Tftp.Request.{parse_rq, c_string}
use esp32_berry_lang.Files.Open.{f_open}
use esp32_berry_lang.Files.Served.{read_refused, parse_rq_unmounted}

-- A file system where everything works and nothing is kept.
abbrev pub vfs : Vfs ℕ ℕ ℕ
vfs = record {
  register = λ path label m. (esp_ok, 1);
  unregister = λ label m. 0;
  fopen = λ path mode m. (some 7, m);
  fclose = λ f m. m;
  stat = λ path m. some false;
  unlink = λ path m. m;
  rename = λ old new m. (pos 0, m);
  opendir = λ path m. (some 1, m);
  readdir = λ dir m. (none, m);
  closedir = λ dir m. (pos 0, m);
  getcwd = λ m. [];
  chdir = λ path m. (pos 0, m);
  mkdir = λ path m. (pos 0, m);
}

-- Before the first call, and after the file system is mounted and given up.
abbrev pub at_start : Mount ℕ
at_start = record { littlefs_initialized = false; disk = 0 }

abbrev at_end : Mount ℕ
at_end = record { littlefs_initialized = true; disk = 0 }

-- A file system where every file is the empty stream.
abbrev streams : Vfs ℕ Stream ℕ
streams = record {
  register = λ path label m. (esp_ok, 1);
  unregister = λ label m. 0;
  fopen = λ path mode m. (some (record { rest = []; written = []; room = 9 }), m);
  fclose = λ f m. m;
  stat = λ path m. some false;
  unlink = λ path m. m;
  rename = λ old new m. (pos 0, m);
  opendir = λ path m. (some 1, m);
  readdir = λ dir m. (none, m);
  closedir = λ dir m. (pos 0, m);
  getcwd = λ m. [];
  chdir = λ path m. (pos 0, m);
  mkdir = λ path m. (pos 0, m);
}

-- A request to read "a" in the buffer of the server.
abbrev asked : Server
asked = record {
  m_port = 69;
  m_sock = some 3;
  m_client = 9;
  m_buffer = 0 ∷ 1 ∷ (codes "a" ++ (0 ∷ (codes "octet" ++ replicate 507 0)));
  m_data_size = pos 10;
  file = none;
  closed = [];
  beyond = 0;
  would_block = false;
  sends = true ∷ [];
  outbox = [];
}

abbrev nothing : Bytes → Bytes → Option Stream
nothing file mode = none

parse_rq_unmounted_example :
    parse_rq (f_open nothing streams at_start) 1 [] asked
    ≡ Request.done ok [] (send_error file_not_found (codes "cannot open file") asked)
unfolding c_string
parse_rq_unmounted_example =
    parse_rq_unmounted nothing streams at_start 0 [] asked rrq file_not_found (codes "a")
      (replicate 506 0) refl refl refl read_refused
