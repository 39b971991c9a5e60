-- ===== src/Ctypes/Objects.antt =====
-- The making of structures: `be_ctypes_init`, `be_ctypes_copy` and `be_ctypes_dyn_init` of
-- components/berry/berry_ctypes/src/be_ctypes.c. The constructor of `bytes` and the memory behind an
-- object are a parameter. `ctypes_register_class` of be_ctypes.h, which nothing calls, is left out.
use esp32_berry_lang.Base.{
  ℕ, ◌==◌, Bool, true, false, ◌&&◌, ◌||◌, Bytes, Option, none, some, length, if◌then◌else◌,
}
use esp32_berry_lang.Base.Int.{ℤ, pos, sub_ℕ, ◌==ℤ◌}
use esp32_berry_lang.Ctypes.{Structure}

-- An argument of a constructor; a `bytes` object is given by the address of its bytes.
pub data Source : Type 0 where
  int_source : ℤ → Source
  comptr_source : ℤ → Source
  bytes_source : ℤ → Source
  other_source : Source

-- `bytes.init` with an address, if one is given, and a size, where `none` is an error that it
-- raises; the bytes of an object; the object with these bytes moved to its start; the definition at
-- an address.
pub record Memory (M : Type 0) : Type 0 where
  pub bytes_init : Option ℤ → ℤ → Option M
  pub buffer : M → Bytes
  pub move_bytes : M → Bytes → M
  pub structure_at : ℤ → Structure

-- What a constructor or a copy gives: `internal_error` comes with the size found and the size wanted.
pub data Made (A : Type 0) : Type 0 where
  made_object : A → Made A
  internal_error : ℕ → ℕ → Made A
  null_error : Made A
  bytes_error : Made A

-- A class of static structures with its `_def`, or the class of dynamic ones
pub data Class : Type 0 where
  static_class : Option Structure → Class
  dyn_class : Class

-- `src_data` of `be_ctypes_init`; NULL is 0.
unfoldable pub src_data : Option Source → ℤ
src_data (some (int_source n)) = n
src_data (some (comptr_source p)) = p
src_data (some (bytes_source p)) = p
src_data _ = pos 0

unfoldable pub not_null : ℤ → Option ℤ
not_null p = if p ==ℤ pos 0 then none else some p

-- A negative size is a fixed one.
unfoldable pub fixed_size : Option Structure → ℤ
fixed_size none = pos 0
fixed_size (some def) = sub_ℕ 0 def.size_bytes

-- Whether `be_ctypes_dyn_init` takes an argument
unfoldable pub is_address : Option Source → Bool
is_address (some (int_source n)) = true
is_address (some (comptr_source p)) = true
is_address _ = false

module _ {M : Type 0} (memory : Memory M) where
  unfoldable pub or_bytes_error : {A : Type 0} → (M → A) → Option M → Made A
  or_bytes_error f none = bytes_error
  or_bytes_error f (some m) = made_object (f m)

  -- `be_ctypes_init`
  unfoldable pub ctypes_init : Option Structure → Option Source → Made M
  ctypes_init definitions source =
      or_bytes_error (λ m. m)
        (memory.bytes_init (not_null (src_data source)) (fixed_size definitions))

  -- The object made, with its `_def`
  unfoldable pub dyn_made : ℤ → ℤ → Made (ℤ × M)
  dyn_made p definitions =
      or_bytes_error (λ m. (definitions, m))
        (memory.bytes_init (some p) (fixed_size (some (memory.structure_at definitions))))

  -- `if (!src_data || !definitions)`
  unfoldable pub dyn_checked : ℤ → ℤ → Made (ℤ × M)
  dyn_checked p definitions =
      if p ==ℤ pos 0 || definitions ==ℤ pos 0 then null_error else dyn_made p definitions

  -- `be_ctypes_dyn_init`
  unfoldable pub dyn_init : Option Source → Option Source → Made (ℤ × M)
  dyn_init address definition =
      if is_address address && is_address definition
      then dyn_checked (src_data address) (src_data definition)
      else null_error

  unfoldable pub without_def : Made (ℤ × M) → Made M
  without_def (made_object (definitions, m)) = made_object m
  without_def (internal_error found wanted) = internal_error found wanted
  without_def null_error = null_error
  without_def bytes_error = bytes_error

  -- The constructor without arguments
  unfoldable pub new_empty : Class → Made M
  new_empty (static_class definitions) = ctypes_init definitions none
  new_empty dyn_class = without_def (dyn_init none none)

  -- The rest of `be_ctypes_copy` with the new object
  unfoldable pub copy_into : M → Made M → Made M
  copy_into src (made_object dst) =
      let src_len = length (memory.buffer src) in
      let dst_len = length (memory.buffer dst) in
      if src_len == dst_len
      then made_object (memory.move_bytes dst (memory.buffer src))
      else internal_error dst_len src_len
  copy_into src (internal_error found wanted) = internal_error found wanted
  copy_into src null_error = null_error
  copy_into src bytes_error = bytes_error

  -- `be_ctypes_copy`
  unfoldable pub copy : Class → M → Made M
  copy class src = copy_into src (new_empty class)
