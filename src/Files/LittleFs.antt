-- ===== src/Files/LittleFs.antt =====
-- The wrapper of the file system, components/internals/esp32/littlefs.c. The file system itself and
-- the calls that reach it by a path are a parameter over its state, the type `M`; `File` stands for
-- what a FILE pointer points to. The log is left out.
use esp32_berry_lang.Base.{
  ltb, Bool, true, false, ◌||◌, Bytes, ◌∷◌, ◌++◌, codes, Option, none, some, length, if◌then◌else◌,
}
use esp32_berry_lang.Base.Int.{ℤ, pos, negsuc}

-- `esp_err_t` as far as the code tells its values apart
pub data EspErr : Type 0 where
  esp_ok esp_fail err_not_found err_other : EspErr

-- The file system and the calls that take a path: `stat` says of a path that is there whether it is
-- a directory, the other calls return their number.
pub record Vfs (M File Dir : Type 0) : Type 0 where
  pub register : Bytes → Bytes → M → EspErr × M
  pub unregister : Bytes → M → M
  pub fopen : Bytes → Bytes → M → Option File × M
  pub fclose : File → M → M
  pub stat : Bytes → M → Option Bool
  pub unlink : Bytes → M → M
  pub rename : Bytes → Bytes → M → ℤ × M
  pub opendir : Bytes → M → Option Dir × M
  pub readdir : Dir → M → Option Bytes × M
  pub closedir : Dir → M → ℤ × M
  pub getcwd : M → Bytes
  pub chdir : Bytes → M → ℤ × M
  pub mkdir : Bytes → M → ℤ × M

-- `littlefs_initialized` and the state of the file system
pub record Mount (M : Type 0) : Type 0 where
  pub littlefs_initialized : Bool
  pub disk : M

-- A result, or a path written past the 512 bytes of `route`
pub data Result (M A : Type 0) : Type 0 where
  done : A → Mount M → Result M A
  overflow : Result M A

abbrev pub mount_point : Bytes
mount_point = codes "/littlefs"

abbrev pub partition_label : Bytes
partition_label = codes "littlefs"

-- `sprintf(route, "%s/%s", MOUNT_POINT, file)`
unfoldable pub route : Bytes → Bytes
route file = mount_point ++ (b'/' ∷ file)

-- Whether the path and its end fit in 512 bytes.
unfoldable pub too_long : Bytes → Bool
too_long file = ltb 511 (length (route file))

unfoldable pub is_ok : EspErr → Bool
is_ok esp_ok = true
is_ok _ = false

module _ {M File Dir : Type 0} (vfs : Vfs M File Dir) where
  -- After the registration
  unfoldable pub mounted : EspErr × M → Mount M → EspErr × Mount M
  mounted (ret, disk) s =
      if is_ok ret
      then (esp_ok, record { littlefs_initialized = true; disk = disk })
      else (esp_fail, record s { disk = disk })

  -- `littlefs_init`; `esp_littlefs_info` only goes to the log.
  unfoldable pub littlefs_init : Mount M → EspErr × Mount M
  littlefs_init s = mounted (vfs.register mount_point partition_label s.disk) s

  -- `littlefs_deinit`
  unfoldable pub littlefs_deinit : Mount M → Mount M
  littlefs_deinit s =
      if s.littlefs_initialized
      then record s { disk = vfs.unregister (codes "littlefs") s.disk }
      else s

  -- A result of the file system with its new state
  unfoldable pub with_disk : {A : Type 0} → Mount M → A × M → Result M A
  with_disk s (a, disk) = done a (record s { disk = disk })

  -- `littlefs_fopen`; NULL is `none`.
  unfoldable pub littlefs_fopen : Bytes → Bytes → Mount M → Result M (Option File)
  littlefs_fopen file mode s =
      if s.littlefs_initialized
      then (if too_long file then overflow else with_disk s (vfs.fopen (route file) mode s.disk))
      else done none s

  -- `littlefs_freopen`
  unfoldable pub littlefs_freopen : Bytes → Bytes → File → Mount M → Result M (Option File)
  littlefs_freopen filename opentype stream s =
      if s.littlefs_initialized
      then (if too_long filename
          then overflow
          else littlefs_fopen filename opentype (record s { disk = vfs.fclose stream s.disk }))
      else done none s

  -- The number that `stat` returns
  unfoldable pub stat_number : Option Bool → ℤ
  stat_number none = negsuc 0
  stat_number (some is_dir) = pos 0

  -- `littlefs_test`
  unfoldable pub littlefs_test : Bytes → Mount M → Result M ℤ
  littlefs_test file s =
      if too_long file then overflow else done (stat_number (vfs.stat (route file) s.disk)) s

  -- `littlefs_remove` of a file that `stat` finds, or does not
  unfoldable pub remove_found : Bytes → Option Bool → Mount M → Result M ℤ
  remove_found file none s = done (negsuc 0) s
  remove_found file (some is_dir) s =
      done (pos 0) (record s { disk = vfs.unlink (route file) s.disk })

  -- `littlefs_remove`
  unfoldable pub littlefs_remove : Bytes → Mount M → Result M ℤ
  littlefs_remove file s =
      if s.littlefs_initialized
      then (if too_long file then overflow else remove_found file (vfs.stat (route file) s.disk) s)
      else done (negsuc 0) s

  -- `littlefs_rename`
  unfoldable pub littlefs_rename : Bytes → Bytes → Mount M → Result M ℤ
  littlefs_rename file newname s =
      if s.littlefs_initialized
      then (if too_long file || too_long newname
          then overflow
          else with_disk s (vfs.rename (route file) (route newname) s.disk))
      else done (negsuc 0) s
