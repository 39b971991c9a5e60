-- ===== src/Files/Port.antt =====
-- Files and directories by name, components/berry/port/be_port.c. What `F_OPEN` and `F_REMOVE` stand
-- for is in components/internals/internals.h.
use esp32_berry_lang.Base.{Bool, true, false, not, Bytes, Option, none, some, if◌then◌else◌}
use esp32_berry_lang.Base.Int.{ℤ, pos, ◌==ℤ◌}
use esp32_berry_lang.Files.LittleFs.{
  Vfs, Mount, Result, done, overflow, route, too_long, littlefs_fopen, littlefs_remove,
}

-- `bdirinfo`
pub record DirInfo (Dir : Type 0) : Type 0 where
  pub dir : Option Dir
  pub name : Option Bytes

-- What `stat` finds is a directory, is none, is anything.
unfoldable pub is_dir : Option Bool → Bool
is_dir none = false
is_dir (some d) = d

unfoldable pub is_file : Option Bool → Bool
is_file none = false
is_file (some d) = not d

unfoldable pub is_there : Option Bool → Bool
is_there none = false
is_there (some d) = true

module _ {M File Dir : Type 0} (vfs : Vfs M File Dir) where
  -- `be_fopen`
  unfoldable pub be_fopen : Bytes → Bytes → Mount M → Result M (Option File)
  be_fopen filename modes s = littlefs_fopen vfs filename modes s

  -- `be_unlink`
  unfoldable pub be_unlink : Bytes → Mount M → Result M ℤ
  be_unlink filename s = littlefs_remove vfs filename s

  -- `be_isdir`, `be_isfile`, `be_isexist`: the path is taken as it is.
  unfoldable pub be_isdir : Bytes → Mount M → Bool
  be_isdir path s = is_dir (vfs.stat path s.disk)

  unfoldable pub be_isfile : Bytes → Mount M → Bool
  be_isfile path s = is_file (vfs.stat path s.disk)

  unfoldable pub be_isexist : Bytes → Mount M → Bool
  be_isexist path s = is_there (vfs.stat path s.disk)

  -- `be_getcwd`, `be_chdir`, `be_mkdir`
  unfoldable pub be_getcwd : Mount M → Bytes
  be_getcwd s = vfs.getcwd s.disk

  unfoldable pub be_chdir : Bytes → Mount M → ℤ × Mount M
  be_chdir path s = let (ret, disk) = vfs.chdir path s.disk in (ret, record s { disk = disk })

  unfoldable pub be_mkdir : Bytes → Mount M → ℤ × Mount M
  be_mkdir path s = let (ret, disk) = vfs.mkdir path s.disk in (ret, record s { disk = disk })

  -- The entry read, if there is one. The result is whether there is none.
  unfoldable pub entry : Option Bytes → DirInfo Dir → Bool × DirInfo Dir
  entry none info = (true, info)
  entry (some name) info = (false, record info { name = some name })

  -- `be_dirnext` of a directory that is open
  unfoldable pub be_dirnext : Dir → DirInfo Dir → Mount M → Result M (Bool × DirInfo Dir)
  be_dirnext dir info s =
      let (file, disk) = vfs.readdir dir s.disk in done (entry file info) (record s { disk = disk })

  unfoldable pub opened : Option Dir × M → DirInfo Dir → Mount M → Result M (Bool × DirInfo Dir)
  opened (none, disk) info s = done (true, record info { dir = none }) (record s { disk = disk })
  opened (some dir, disk) info s =
      be_dirnext dir (record info { dir = some dir }) (record s { disk = disk })

  -- `be_dirfirst`
  unfoldable pub be_dirfirst : DirInfo Dir → Bytes → Mount M → Result M (Bool × DirInfo Dir)
  be_dirfirst info path s =
      if too_long path then overflow else opened (vfs.opendir (route path) s.disk) info s

  -- `be_dirclose` of a directory that is open
  unfoldable pub be_dirclose : Dir → Mount M → Bool × Mount M
  be_dirclose dir s =
      let (ret, disk) = vfs.closedir dir s.disk in (not (ret ==ℤ pos 0), record s { disk = disk })
