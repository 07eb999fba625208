-- ===== src/Core/Wal/Space.antt =====
-- core/wal.go: reserving space in the files, so that a later record always fits.
use gostalkd.Prelude.{
  ℕ, zero, suc, ◌+◌, ◌*◌, ◌%◌, Bool, true, false, not, ◌&&◌, Option, none, some, ◌==◌,
  if◌then◌else◌, add64, sub64, slt, length,
}
use gostalkd.Machine.Actions.{
  on_option, M, ◌>>=◌, ◌>>◌, return, panic, read, deref, get_job, get_file, change_file, get_wal,
  change_wal, get_tube,
}
use gostalkd.Core.Wal.Files.{file_w_close, make_next_file, int64_size, job_rec_size}

-- moveResv: the two files may be the same
unfoldable pub move_resv : ℕ → ℕ → ℕ → M (Unit {0})
move_resv to from n = do
  change_file from (λ x. record x { resv = sub64 x.resv n; free = add64 x.free n })
  change_file to (λ x. record x { resv = add64 x.resv n; free = sub64 x.free n })

-- needFree
unfoldable pub need_free : ℕ → M ℕ
unfolding make_next_file
need_free n = do
  l ← get_wal
  t ← deref l.tail
  x ← get_file t
  if not (slt x.free n)
      then return n
      else (do made ← make_next_file; return (if made then n else 0))

-- useNext
unfoldable pub use_next : M Bool
unfolding file_w_close
use_next = do
  l ← get_wal
  f ← deref l.cur
  x ← get_file f
  on_option x.next (return false)
      (λ g. (do change_wal (λ y. record y { cur = some g }); file_w_close (some f); return true))

-- the size of a delete record
abbrev pub record_size : ℕ
record_size = int64_size + job_rec_size

-- a % z of int64, for positive z: it has the sign of `a`
abbrev pub rem64 : ℕ → ℕ → ℕ
rem64 a z = if slt a 0 then sub64 0 (sub64 0 a % z) else a % z

-- balanceRest
unfoldable pub balance_rest : ℕ → Option ℕ → ℕ → M ℕ
unfolding move_resv need_free
balance_rest fuel none n = return 1
balance_rest zero (some b) n = panic
balance_rest (suc fuel) (some b) n = do
  x ← get_file b
  let r = rem64 (sub64 x.resv n) record_size
  let c = sub64 record_size r
  if r == 0 then (do y ← get_file b; balance_rest fuel y.next 0) else (do
    l ← get_wal
    t ← deref l.tail
    y ← get_file t
    if not (slt y.resv c) && not (slt x.free c)
        then (do move_resv b t c; z ← get_file b; balance_rest fuel z.next 0)
        else (do
          got ← need_free r
          if not (got == r) then return 0 else (do
            l' ← get_wal
            t' ← deref l'.tail
            move_resv t' b r
            z ← get_file b
            balance_rest fuel z.next 0)))

-- the loop of balance: whether it ended by its test
unfoldable pub balance_loop : ℕ → ℕ → M Bool
unfolding move_resv need_free use_next
balance_loop zero n = panic
balance_loop (suc fuel) n = do
  l ← get_wal
  a ← deref l.cur
  x ← get_file a
  if not (slt x.resv n) then return true else (do
    got ← need_free x.resv
    if not (got == x.resv) then return false else (do
      l' ← get_wal
      t ← deref l'.tail
      move_resv t a x.resv
      _ ← use_next
      balance_loop fuel n))

-- balance
unfoldable pub balance : ℕ → M ℕ
unfolding balance_loop balance_rest
balance n = do
  w ← read
  enough ← balance_loop (w.fresh_file + 2) n
  if not enough then return 0 else (do v ← read; balance_rest (2 * v.fresh_file + 4) v.wal.cur n)

-- charging `n` bytes to a file and to the log, or taking the charge back
unfoldable pub charge : ℕ → ℕ → M (Unit {0})
charge f n = do
  change_file f (λ x. record x { free = sub64 x.free n; resv = add64 x.resv n })
  change_wal (λ l. record l { resv = add64 l.resv n })

unfoldable pub uncharge : ℕ → ℕ → M (Unit {0})
uncharge f n = do
  change_wal (λ l. record l { resv = sub64 l.resv n })
  change_file f (λ x. record x { resv = sub64 x.resv n; free = add64 x.free n })

-- reserve
unfoldable pub reserve : ℕ → M ℕ
unfolding need_free balance charge uncharge
reserve n = do
  l ← get_wal
  if not l.in_use then return 1 else (do
    a ← deref l.cur
    x ← get_file a
    if not (slt x.free n) then (do charge a n; return n) else (do
      got ← need_free n
      if not (got == n) then return 0 else (do
        l₁ ← get_wal
        t ← deref l₁.tail
        charge t n
        ok ← balance n
        if not (ok == 0)
            then return n
            else (do l₂ ← get_wal; t₂ ← deref l₂.tail; uncharge t₂ n; return 0))))

-- WalResvUpdate
unfoldable pub wal_resv_update : M ℕ
unfolding reserve
wal_resv_update = reserve record_size

-- the size of a full record of a job: its tube's name, the record and the body
unfoldable pub full_size : ℕ → M ℕ
full_size j = do
  x ← get_job j
  t ← deref x.tube
  tube ← get_tube t
  return (add64 (int64_size + length tube.name + job_rec_size) x.r.body_size)

-- walResvMigrate
unfoldable pub wal_resv_migrate : ℕ → M ℕ
unfolding full_size reserve
wal_resv_migrate j = do z ← full_size j; reserve z

-- WalResvPut
unfoldable pub wal_resv_put : ℕ → M ℕ
unfolding full_size reserve
wal_resv_put j = do z ← full_size j; reserve (add64 z record_size)
