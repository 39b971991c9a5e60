-- ===== src/Tftp/Data/Loops.antt =====
-- The two copying loops between a file and the packet buffer, in closed form.
use esp32_berry_lang.Base.{
  ℕ, zero, suc, ◌-◌, ◌≤◌, ◌<◌, min, Bytes, [], ◌∷◌, ◌++◌, some, length, take, drop, overlay, ◌≡◌,
  arith, append_assoc, take-nil,
}
use esp32_berry_lang.Stdio.{Stream, put_room}
use esp32_berry_lang.Tftp.Data.{read_loop, on_read_data, head_or, write_loop}

read_loop_lem :
    (src : Bytes) (left : ℕ) (dst : Bytes)
    → read_loop src left dst
      ≡ (min left (length src), overlay (take left src) dst, drop (suc left) src)
unfolding read_loop
read_loop_lem [] left dst = rw (take-nil left) (ground arith)
read_loop_lem (c ∷ cs) zero dst = ground arith
read_loop_lem (c ∷ cs) (suc left) [] = ground (arith, read_loop_lem cs left [])
read_loop_lem (c ∷ cs) (suc left) (y ∷ dst) = ground (arith, read_loop_lem cs left dst)

put_room_pos :
    (n c : ℕ) (st : Stream)
    → 0 < n
    → put_room n c st ≡ some (record st { written = st.written ++ c ∷ []; room = n - 1 })
put_room_pos n c st h = ground arith

pub write_loop_lem :
    (beyond left : ℕ) (src : Bytes) (st : Stream)
    → left ≤ length src
    → left < st.room
    → write_loop beyond left src st ≡ (
      left,
      record st {
        written = st.written ++ (take left src ++ (head_or (drop left src) beyond ∷ []));
        room = st.room - suc left;
      },
    )
unfolding write_loop
write_loop_lem beyond zero src st h k =
    rw (put_room_pos st.room (head_or src beyond) st k, write_loop)
write_loop_lem beyond (suc left) [] st h k = absurd (omega arith)
write_loop_lem beyond (suc left) (c ∷ src) st h k =
    rw (put_room_pos st.room c st (omega arith), write_loop)
      (ground (
        arith,
        write_loop_lem beyond left src
            (record st { written = st.written ++ c ∷ []; room = st.room - 1 }),
        append_assoc st.written (c ∷ []) (take left src ++ (head_or (drop left src) beyond ∷ [])),
      ))

-- `TFTP_on_read_data` stores the next bytes of the file, at most `len`, and counts them. If the file
-- has more than `len` bytes left, the byte after them is taken from it as well, and is lost.
pub on_read_data_lem :
    (st : Stream) (len : ℕ) (dst : Bytes)
    → on_read_data st len dst ≡ (
      min len (length st.rest),
      overlay (take len st.rest) dst,
      record st { rest = drop (suc len) st.rest },
    )
unfolding on_read_data
on_read_data_lem st len dst = rw (read_loop_lem st.rest len dst)
