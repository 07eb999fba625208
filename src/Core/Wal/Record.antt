-- ===== src/Core/Wal/Record.antt =====
-- core/wal.go: writing records, and compacting the log.
use gostalkd.Prelude.{
  ℕ, zero, suc, ◌*◌, ◌-◌, ◌/◌, ◌%◌, Bool, true, false, not, ◌&&◌, List, [], ◌∷◌, some,
  if◌then◌else◌, add64, sub64, positive, slt, mod64,
}
use gostalkd.Machine.{Wal}
use gostalkd.Machine.Actions.{
  on_option, M, ◌>>=◌, ◌>>◌, return, done, when, deref, now, get_job, get_file, get_wal, change_wal,
}
use gostalkd.Core.Wal.Files.{
  same_address, file_w_close, file_rm_job, file_wr_job_short, file_wr_job_full,
}
use gostalkd.Core.Wal.Space.{use_next, wal_resv_migrate}

-- WalWrite, in the branch where a file has room: a short record for a job that is in a file
unfoldable pub write_record : ℕ → M Bool
write_record j = do
  l ← get_wal
  f ← deref l.cur
  x ← get_job j
  on_option x.file (file_wr_job_full f j) (λ _. file_wr_job_short f j)

-- WalWrite
unfoldable pub wal_write : ℕ → M Bool
unfolding write_record file_wr_job_short file_wr_job_full use_next file_w_close
wal_write j = do
  l ← get_wal
  if not l.in_use then return true else (do
    f ← deref l.cur
    x ← get_file f
    room ← if positive x.resv then return true else use_next
    ok ← if room then write_record j else return false
    when (not ok)
        (do l' ← get_wal; file_w_close l'.cur; change_wal (λ y. record y { in_use = false }))
    change_wal (λ y. record y { nrec = add64 y.nrec 1 })
    return ok)

-- a / d of int64, for positive d: rounded towards zero
abbrev pub quot64 : ℕ → ℕ → ℕ
quot64 a d = if slt a 0 then sub64 0 (sub64 0 a / d) else a / d

-- ratio
unfoldable pub ratio : Wal → ℕ
ratio l =
    let d = add64 l.alive l.resv in
    let n = sub64 (l.nfile * l.file_size % mod64) d in if not (positive d) then 0 else quot64 n d

-- the part of moveOne with the jobs of the file at the head
unfoldable pub move_first : ℕ → List ℕ → M (Unit {0})
unfolding file_rm_job wal_resv_migrate wal_write
move_first h [] = done
move_first h (j ∷ js) = do
  z ← wal_resv_migrate j
  when (positive z) (do
    file_rm_job (some h) j
    change_wal (λ y. record y { nmig = add64 y.nmig 1 })
    _ ← wal_write j
    done)

-- moveOne
unfoldable pub move_one : M (Unit {0})
unfolding move_first
move_one = do
  l ← get_wal
  if same_address l.head l.cur then done else (do
    h ← deref l.head
    x ← get_file h
    if same_address x.next l.cur then done else move_first h x.job_list)

-- the loop of walCompact, for the rounds that are left
unfoldable pub compact_loop : ℕ → M (Unit {0})
compact_loop zero = done
compact_loop (suc n) = do move_one; compact_loop n

-- walCompact: one round for each r from the ratio down to 2
unfoldable pub wal_compact : M (Unit {0})
unfolding compact_loop move_one
wal_compact = do l ← get_wal; compact_loop (if slt (ratio l) 2 then 0 else ratio l - 1)

-- WalSync: reads the clock, and syncs the current file if it is time
unfoldable pub wal_sync : M (Unit {0})
wal_sync = do
  t ← now
  l ← get_wal
  when (l.want_sync && not (slt t (add64 l.last_sync l.sync_rate))) (do f ← deref l.cur; done)

-- WalMain
unfoldable pub wal_main : M (Unit {0})
unfolding wal_compact wal_sync
wal_main = do l ← get_wal; when l.in_use (do wal_compact; wal_sync)
