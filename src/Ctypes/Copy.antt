-- ===== src/Ctypes/Copy.antt =====
-- What `be_ctypes_copy` of components/berry/berry_ctypes/src/be_ctypes.c makes.
use esp32_berry_lang.Base.{ℕ, suc, ◌≤◌, ◌≡◌, Bool, Bytes, ◌++◌, none, some, length, overlay}
use esp32_berry_lang.Base.Int.{ℤ, negsuc}
use esp32_berry_lang.Ctypes.{Interpreter}
use esp32_berry_lang.Ctypes.Objects.{Memory}

-- What the documentation says of `bytes`: an object made with a fixed size has that many bytes, bytes
-- moved to its start replace as many of its own, and the methods read an object's bytes alone.
pub record Laws {M : Type 0} (memory : Memory M) (vm : Interpreter M) : Type 0 where
  pub init_fixed :
      (n : ℕ) (m : M)
      → memory.bytes_init none (negsuc n) ≡ some m
      → length (memory.buffer m) ≡ suc n
  pub buffer_move :
      (m : M) (bs : Bytes)
      → length bs ≤ length (memory.buffer m)
      → memory.buffer (memory.move_bytes m bs) ≡ overlay bs (memory.buffer m)
  pub get_buffer :
      (sign : Bool) (offset : ℕ) (size : ℤ) (m m' : M)
      → memory.buffer m ≡ memory.buffer m'
      → vm.get sign offset size m ≡ vm.get sign offset size m'
  pub getbits_buffer :
      (offset len : ℕ) (m m' : M)
      → memory.buffer m ≡ memory.buffer m'
      → vm.getbits offset len m ≡ vm.getbits offset len m'
