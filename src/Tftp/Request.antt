-- ===== src/Tftp/Request.antt =====
-- `TFTP_parse_wrq`, `TFTP_parse_rrq` and `TFTP_parse_rq` of
-- components/internals/esp32/tftp_server.c.
pub mod Ends
pub mod Named
pub mod Rounds
pub mod Total
use esp32_berry_lang.Base.{
  ℕ, zero, suc, ◌-◌, ◌&&◌, Bool, false, Bytes, List, [], ◌∷◌, ◌++◌, Option, none, some, length,
  drop, codes, ◌==◌, if◌then◌else◌,
}
use esp32_berry_lang.Base.Int.{pos, ltb_ℤ}
use esp32_berry_lang.Tftp.Wire.{rrq, wrq, file_not_found, access_violation, get16}
use esp32_berry_lang.Tftp.Machine.{
  Code, failed, ok, again, Recv, Server, sendto, send_ack, send_error,
}
use esp32_berry_lang.Tftp.Data.{Open, on_read, on_write, on_close}
use esp32_berry_lang.Tftp.Write.{process_write}
use esp32_berry_lang.Tftp.Read.{process_read}

-- A C string and what stands behind its NUL; `none` if no NUL stands in the buffer, where `strlen`
-- runs out of it.
unfoldable pub c_string : Bytes → Option (Bytes × Bytes)
c_string [] = none
c_string (c ∷ cs) =
    let more = c_string cs in
    if c == 0
    then some ([], cs)
    else elim more [ none ↦ none | some (text, behind) ↦ some (c ∷ text, behind) ]

-- `!strcmp(ptr, text)` on the bytes from `ptr` on
unfoldable pub str_at : Bytes → Bytes → Bool
str_at [] ptr = elim ptr [ [] ↦ false | c ∷ cs ↦ c == 0 ]
str_at (t ∷ ts) [] = false
str_at (t ∷ ts) (c ∷ cs) = c == t && str_at ts cs

-- The answer to a request for another block size: "\0\6blksize\0512\0".
abbrev pub blksize_reply : Bytes
blksize_reply = 0 ∷ 6 ∷ (codes "blksize" ++ (0 ∷ (codes "512" ++ (0 ∷ []))))

-- The file name and the mode of a request, and the options behind them.
abbrev pub strings : Server → Option (Bytes × Bytes)
strings s = elim (c_string (drop 2 s.m_buffer)) [
  | none ↦ none
  | some (filename, behind) ↦ elim (c_string behind) [
    | none ↦ none
    | some (mode, ptr) ↦ some (filename, ptr)
  ]
]

-- The end of `TFTP_parse_wrq`, with the file open.
unfoldable pub accept_wrq : Bytes → Server → Server
accept_wrq ptr s =
    if ltb_ℤ (pos (length s.m_buffer - length ptr)) s.m_data_size && str_at (codes "blksize") ptr
    then (sendto blksize_reply s).1
    else send_ack 0 s

-- The answer to a write request, once `TFTP_on_write` has returned.
unfoldable pub answer_wrq : Bytes → Code × Server → Option (Code × Server)
answer_wrq ptr (failed, s) = some (failed, send_error access_violation (codes "cannot open file") s)
answer_wrq ptr (_, s) = some (ok, accept_wrq ptr s)

unfoldable pub named_wrq : Open → Option (Bytes × Bytes) → Server → Option (Code × Server)
named_wrq open_file none s = none
named_wrq open_file (some (filename, ptr)) s = answer_wrq ptr (on_write open_file filename s)

-- `TFTP_parse_wrq`; `none` is a string with no end.
unfoldable pub parse_wrq : Open → Server → Option (Code × Server)
parse_wrq open_file s = named_wrq open_file (strings s) s

-- The answer to a read request, once `TFTP_on_read` has returned.
unfoldable pub answer_rrq : Code × Server → Option (Code × Server)
answer_rrq (failed, s) = some (failed, send_error file_not_found (codes "cannot open file") s)
answer_rrq (_, s) = some (ok, s)

unfoldable pub named_rrq : Open → Option (Bytes × Bytes) → Server → Option (Code × Server)
named_rrq open_file none s = none
named_rrq open_file (some (filename, ptr)) s = answer_rrq (on_read open_file filename s)

-- `TFTP_parse_rrq`
unfoldable pub parse_rrq : Open → Server → Option (Code × Server)
parse_rrq open_file s = named_rrq open_file (strings s) s

-- How a request ends: with a result, by a read past the buffer, or not within the fuel.
pub data Run : Type 0 where
  done : Code → List Recv → Server → Run
  fault : Run
  out_of_fuel : Run

-- `case TFTP_CMD_WRQ`, after the request has been parsed
unfoldable pub serve_wrq : List Recv → Option (Code × Server) → Run
serve_wrq inbox none = fault
serve_wrq inbox (some (ok, s)) =
    let (c, rest, s') = process_write inbox s in done c rest (on_close s')
serve_wrq inbox (some (_, s)) = done ok inbox s

-- `case TFTP_CMD_RRQ`
unfoldable pub serve_rrq : List Recv → Option (Code × Server) → Run
serve_rrq inbox none = fault
serve_rrq inbox (some (ok, s)) = elim (process_read inbox s) [
  | none ↦ out_of_fuel
  | some (c, rest, s') ↦ done c rest (on_close s')
]
serve_rrq inbox (some (_, s)) = done ok inbox s

-- The `switch` of `TFTP_parse_rq`. An unknown command leaves `result` as it was.
unfoldable pub dispatch : Open → Code → List Recv → Server → Run
dispatch open_file result inbox s =
    let cmd = get16 s.m_buffer 0 in
    if cmd == wrq
    then serve_wrq inbox (parse_wrq open_file s)
    else if cmd == rrq
    then serve_rrq inbox (parse_rrq open_file s)
    else done result inbox s

-- `for (;;)` of `TFTP_parse_rq`, on fuel: it goes on while `result` is 1.
unfoldable pub rq_rounds : Open → ℕ → Code → List Recv → Server → Run
rq_rounds open_file zero result inbox s = out_of_fuel
rq_rounds open_file (suc fuel) result inbox s = elim (dispatch open_file result inbox s) [
  | done c rest s' ↦ elim c [
    | again ↦ rq_rounds open_file fuel again rest s'
    | other ↦ done other rest s'
  ]
  | fault ↦ fault
  | out_of_fuel ↦ out_of_fuel
]

-- `TFTP_parse_rq`
unfoldable pub parse_rq : Open → ℕ → List Recv → Server → Run
parse_rq open_file fuel inbox s = rq_rounds open_file fuel failed inbox s
