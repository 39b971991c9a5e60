-- ===== src/Tftp/Read/Total.antt =====
-- `process_read` always returns: each round but the last takes bytes from the file.
use esp32_berry_lang.Base.{
  ℕ, zero, suc, ◌+◌, ◌<◌, List, some, none, length, ◌≡◌, ◌⊎◌, inl, inr, refl, arith, Option,
  length-drop, take, Option-cases, Bool-cases, ltb, tests, ltb_false→le,
}
use esp32_berry_lang.Base.Int.{pos_part}
use esp32_berry_lang.Tftp.Machine.{Code, ok, failed, Recv, Server, sendto, wait_for_ack}
use esp32_berry_lang.Tftp.Machine.Sends.{sendto-file, wait_for_ack-file}
use esp32_berry_lang.Tftp.Read.{put_header, read_block, attempts, read_rounds, process_read, unread}
use esp32_berry_lang.Tftp.Read.Download.{read_block_lem}

attempts-file :
    (r size block : ℕ) (inbox : List Recv) (s : Server)
    → (attempts r size block inbox s).2.file ≡ s.file
unfolding attempts
attempts-file zero size block inbox s = refl
attempts-file (suc r) size block inbox s =
    let s1 = (sendto (take (size + 4) s.m_buffer) s).1 in
    let out = wait_for_ack block inbox s1 in
    ground (
      arith,
      sendto-file (take (size + 4) s.m_buffer) s,
      wait_for_ack-file block inbox s1,
      attempts-file r size block out.1 out.2,
    )

read_block-none : (s : Server) → s.file ≡ none → pos_part (read_block s).m_data_size < 512
unfolding read_block
read_block-none s e = ground arith

-- A round with a full block leaves less of the file.
read_block-unread :
    (s : Server)
    → ((pos_part (read_block s).m_data_size < 512) ⊎ (unread (read_block s).file < unread s.file))
read_block-unread s = elim (Option-cases s.file) [
  | inl e ↦ inl (read_block-none s e)
  | inr (st, e) ↦ elim (Bool-cases (ltb (length st.rest) 512)) [
    | inl small ↦ inl (rw (read_block_lem s st e) (omega (tests, small)))
    | inr big ↦ inr (
        rw (read_block_lem s st e)
          (simp e (omega (arith, length-drop 513 st.rest, ltb_false→le (length st.rest) 512 big))))
  ]
]

put_header-file : (block : ℕ) (s : Server) → (put_header block s).file ≡ s.file
unfolding put_header
put_header-file block s = refl

-- `process_read` ends with success or with failure.
abbrev pub IsEnd : Option (Code × List Recv × Server) → Type 0
IsEnd none = ⊥
IsEnd (some (c, rest, s)) = (c ≡ ok) ⊎ (c ≡ failed)

read_rounds-IsEnd :
    (fuel block : ℕ) (inbox : List Recv) (s : Server)
    → unread s.file < fuel
    → IsEnd (read_rounds fuel block inbox s)
unfolding read_rounds
read_rounds-IsEnd zero block inbox s h = absurd (omega arith)
read_rounds-IsEnd (suc fuel) block inbox s h =
    let s1 = read_block (put_header block s) in
    let out = attempts 3 (pos_part s1.m_data_size) block inbox s1 in
    ground (
      arith,
      read_block-unread (put_header block s),
      put_header-file block s,
      attempts-file 3 (pos_part s1.m_data_size) block inbox s1,
      read_rounds-IsEnd fuel (block + 1) out.1 out.2,
    )

-- The fuel of `process_read` is enough, whatever the network does: it returns, with 0 or -1.
pub process_read-IsEnd : (inbox : List Recv) (s : Server) → IsEnd (process_read inbox s)
unfolding process_read
process_read-IsEnd inbox s = read_rounds-IsEnd (suc (unread s.file)) 1 inbox s (omega arith)
