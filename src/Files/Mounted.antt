-- ===== src/Files/Mounted.antt =====
-- The flag `littlefs_initialized` over any sequence of the calls of
-- components/internals/esp32/littlefs.c.
use esp32_berry_lang.Base.{Bool, false, ◌||◌, Bytes, List, [], ◌∷◌, Option, none, some, ◌≡◌}
use esp32_berry_lang.Files.LittleFs.{
  Vfs, Mount, Result, done, overflow, is_ok, littlefs_init, littlefs_deinit, littlefs_fopen,
  littlefs_freopen, littlefs_test, littlefs_remove, littlefs_rename,
}

-- A call of the module
pub data Op (File : Type 0) : Type 0 where
  init deinit : Op File
  open_file : Bytes → Bytes → Op File
  reopen_file : Bytes → Bytes → File → Op File
  test remove : Bytes → Op File
  rename : Bytes → Bytes → Op File

abbrev state_of : {M A : Type 0} → Result M A → Option (Mount M)
state_of (done a s) = some s
state_of overflow = none

module _ {M File Dir : Type 0} (vfs : Vfs M File Dir) where
  -- The state behind a call; `none` where a path is too long.
  unfoldable pub apply : Op File → Mount M → Option (Mount M)
  apply init s = some (littlefs_init vfs s).1
  apply deinit s = some (littlefs_deinit vfs s)
  apply (open_file name mode) s = state_of (littlefs_fopen vfs name mode s)
  apply (reopen_file name mode stream) s = state_of (littlefs_freopen vfs name mode stream s)
  apply (test name) s = state_of (littlefs_test vfs name s)
  apply (remove name) s = state_of (littlefs_remove vfs name s)
  apply (rename name newname) s = state_of (littlefs_rename vfs name newname s)

  unfoldable pub run : List (Op File) → Mount M → Option (Mount M)
  run [] s = some s
  run (op ∷ ops) s = elim (apply op s) [ none ↦ none | some s' ↦ run ops s' ]

  -- Whether a call mounts the file system
  unfoldable pub mounts : Op File → Mount M → Bool
  mounts init s = is_ok (littlefs_init vfs s).0
  mounts _ s = false

  -- The flag behind a call
  abbrev Flag : Bool → Option (Mount M) → Type 0
  Flag b none = Unit
  Flag b (some s) = s.littlefs_initialized ≡ b

  -- Whether one of the calls mounts the file system
  unfoldable pub some_mounts : List (Op File) → Mount M → Bool
  some_mounts [] s = false
  some_mounts (op ∷ ops) s =
      mounts op s || elim (apply op s) [ none ↦ false | some s' ↦ some_mounts ops s' ]
