-- ===== src/Core/Wal/Lock.antt =====
-- core/lockfile_unix.go and core/lockfile_windows.go: WalDirLock, by what the system answers.
use gostalkd.Prelude.{Bool, false, not, ◌++◌, Bytes, codes, if◌then◌else◌}

-- what the system answers, of a directory to make, and of a file to open and to lock
pub record LockAnswers : Type 0 where
  pub made : Bytes → Bool
  pub opened : Bytes → Bool
  pub locked : Bytes → Bool

-- WalDirLock, the same on both systems but for the call that locks, of the directory of the log; the result says whether it went well
unfoldable pub wal_dir_lock : LockAnswers → Bytes → Bool
wal_dir_lock answers dir =
    let path = dir ++ codes "/lock" in
    if not (answers.made dir)
    then false
    else if not (answers.opened path)
    then false
    else answers.locked path
