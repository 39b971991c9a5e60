-- ===== src/Tftp/Write/Upload.antt =====
-- A round of an upload on the block that is due.
use esp32_berry_lang.Base.{
  ℕ, suc, ◌+◌, ◌-◌, ◌*◌, ◌≤◌, ◌<◌, Bytes, List, [], ◌∷◌, ◌++◌, some, length, take, drop, overlay,
  ◌≡◌, refl, arith, length-append, length-drop, overlay-eq-append, take-append, drop-drop,
  drop-append, ltb, if◌then◌else◌,
}
use esp32_berry_lang.Base.Int.{pos, -ℤ_pos}
use esp32_berry_lang.Stdio.{Stream}
use esp32_berry_lang.Tftp.Wire.{data_cmd, hi, lo, get16}
use esp32_berry_lang.Tftp.Machine.{ok, datagram, Server, ack_packet, recv, send_ack}
use esp32_berry_lang.Tftp.Machine.Sends.{send_ack_lem}
use esp32_berry_lang.Tftp.Data.{head_or, on_write_data}
use esp32_berry_lang.Tftp.Data.Loops.{write_loop_lem}
use esp32_berry_lang.Tftp.Write.{stop, go, data_step, write_step}

abbrev pub data_packet : ℕ → Bytes → Bytes
data_packet block payload = hi data_cmd ∷ lo data_cmd ∷ hi block ∷ lo block ∷ payload

-- The word that `htons` and `ntohs` carry over.
pub word_lem : (v : ℕ) → v < 65536 → hi v * 256 + lo v ≡ v
word_lem v h = omega arith

-- What the buffer holds once a DATA packet has come in.
abbrev filled : ℕ → Bytes → Bytes → Bytes
filled next p b = data_packet next p ++ drop (length p + 4) b

abbrev arrived : Server → ℕ → ℕ → Bytes → Server
arrived s from next p = record s {
  m_client = from;
  m_buffer = filled next p s.m_buffer;
  m_data_size = pos (length p + 4);
}

recv-data :
    (s : Server) (from next : ℕ) (p : Bytes)
    → length s.m_buffer ≡ 516
    → length p ≤ 512
    → recv (datagram from (data_packet next p)) s ≡ arrived s from next p
unfolding recv
recv-data s from next p hb hp =
    rw (overlay-eq-append (data_packet next p) s.m_buffer (omega arith)) (ground arith)

-- The state after block `next` has been taken in.
abbrev pub taken : Server → ℕ → ℕ → Bytes → Stream → Server
taken s from next p st = record s {
  m_client = from;
  m_buffer = filled next p s.m_buffer;
  m_data_size = pos (length p + 4);
  file = some (record st {
    written = st.written ++ (p ++ (head_or (drop (length p + 4) s.m_buffer) s.beyond ∷ []));
    room = st.room - suc (length p);
  });
  outbox = s.outbox ++ (record { to = from; payload = ack_packet next } ∷ []);
}

-- Writing a block: its bytes, and one more.
pub on_write_data_lem :
    (len : ℕ) (src : Bytes) (s : Server) (st : Stream)
    → s.file ≡ some st
    → len ≤ length src
    → len < st.room
    → on_write_data (pos len) src s ≡ record s {
      file = some (record st {
        written = st.written ++ (take len src ++ (head_or (drop len src) s.beyond ∷ []));
        room = st.room - suc len;
      });
    }
unfolding on_write_data
on_write_data_lem len src s st hf hl hr = ground (arith, write_loop_lem s.beyond len src st hl hr)

abbrev kept : ℕ → ℕ → Server → Server
kept n next s = on_write_data (pos n) (drop 4 (send_ack next s).m_buffer) (send_ack next s)

-- The round on a DATA packet with the block number that is due.
write_step-due :
    (n next : ℕ) (s : Server)
    → get16 s.m_buffer 0 ≡ 3
    → get16 s.m_buffer 2 ≡ next
    → s.m_data_size ≡ pos (n + 4)
    → write_step next s
      ≡ (if ltb n 512 then stop ok (kept n next s) else go (next + 1) (kept n next s))
unfolding write_step data_step
write_step-due n next s hc hn hd = simp (hd, hc, hn, -ℤ_pos) (ground arith)

kept-taken :
    (s : Server) (from next : ℕ) (p : Bytes) (st : Stream)
    → s.sends ≡ []
    → s.file ≡ some st
    → length p < st.room
    → kept (length p) next (arrived s from next p) ≡ taken s from next p st
kept-taken s from next p st hs hf hr = rw (
  send_ack_lem next (arrived s from next p) hs,
  on_write_data_lem (length p) (p ++ drop (length p + 4) s.m_buffer) acked st hf
      (omega (arith, length-append p (drop (length p + 4) s.m_buffer))) hr,
  take-append (length p) p (drop (length p + 4) s.m_buffer) refl,
  drop-append (length p) p (drop (length p + 4) s.m_buffer) refl,
)
  where
    acked : Server
    acked = record (arrived s from next p) {
      outbox = s.outbox ++ (record { to = from; payload = ack_packet next } ∷ []);
    }

pub step-data :
    (s : Server) (from next : ℕ) (p : Bytes) (st : Stream)
    → s.sends ≡ []
    → s.file ≡ some st
    → length s.m_buffer ≡ 516
    → length p ≤ 512
    → length p < st.room
    → next < 65536
    → write_step next (recv (datagram from (data_packet next p)) s) ≡ (
        if ltb (length p) 512
        then stop ok (taken s from next p st)
        else go (next + 1) (taken s from next p st))
step-data s from next p st hs hf hb hp hr hn = rw (
  recv-data s from next p hb hp,
  write_step-due (length p) next (arrived s from next p) refl (word_lem next hn) refl,
  kept-taken s from next p st hs hf hr,
)

-- The room that these payloads take in the file, each with one byte more.
abbrev pub space : List Bytes → ℕ
space [] = 0
space (p ∷ ps) = suc (length p) + space ps

pub drop-filled :
    (next : ℕ) (p b : Bytes)
    → length p + 4 ≤ length b
    → drop 4 (filled next p b) ≡ overlay p (drop 4 b)
drop-filled next p b h =
    rw (overlay-eq-append p (drop 4 b) (omega (arith, length-drop 4 b)), drop-drop (length p) 4 b)

pub length-filled :
    (next : ℕ) (p b : Bytes) → length p + 4 ≤ length b → length (filled next p b) ≡ length b
length-filled next p b h =
    omega (arith, length-append p (drop (length p + 4) b), length-drop (length p + 4) b)

pub drop-plus : (next : ℕ) (p b : Bytes) → drop (length p + 4) b ≡ drop (length p) (drop 4 b)
drop-plus next p b = rw (drop-drop (length p) 4 b)
