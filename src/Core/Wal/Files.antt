-- ===== src/Core/Wal/Files.antt =====
-- core/file.go: the files of the log, their reference counts, and the jobs that they hold.
use mathlib.Core.Option.{Option}
use gostalkd.Prelude.{
  ℕ, ◌+◌, Bool, true, false, List, [], ◌∷◌, ◌++◌, none, some, ltb, ◌==◌, if◌then◌else◌, add64,
  sub64, length,
}
use gostalkd.Core.Job.{JobState, invalid}
use gostalkd.Machine.{Opening, File, opened, refused, version_panics}
use gostalkd.Machine.Actions.{
  on_option, M, ◌>>=◌, ◌>>◌, return, done, panic, read, modify, when, deref, get_job, change_job,
  get_file, change_file, get_wal, change_wal, while_some, get_tube,
}

abbrev pub same_address : Option ℕ → Option ℕ → Bool
same_address none none = true
same_address (some a) (some b) = a == b
same_address _ _ = false

-- The round of walGc: the file at the head, if nothing refers to it.
unfoldable pub dead_head : M (Option ℕ)
dead_head w = elim w.wal.head [
  | none ↦ some (none, w)
  | some f ↦ some (if (w.file f).refs == 0 then some f else none, w)
]

unfoldable pub drop_head : ℕ → M (Unit {0})
drop_head f = do
  x ← get_file f
  change_wal (λ l. record l {
    head = x.next;
    tail = if same_address l.tail (some f) then x.next else l.tail;
    nfile = sub64 l.nfile 1;
  })

-- walGc
unfoldable pub wal_gc : M (Unit {0})
unfolding dead_head drop_head while_some
wal_gc = do w ← read; while_some (w.fresh_file + 1) dead_head drop_head

-- fileIncRef
unfoldable pub file_inc_ref : Option ℕ → M (Unit {0})
file_inc_ref none = done
file_inc_ref (some f) = change_file f (λ x. record x { refs = add64 x.refs 1 })

-- fileDecRef
unfoldable pub file_dec_ref : Option ℕ → M (Unit {0})
unfolding wal_gc
file_dec_ref none = done
file_dec_ref (some f) = do
  change_file f (λ x. record x { refs = sub64 x.refs 1 })
  x ← get_file f
  when (ltb x.refs 1) wal_gc

-- FileAddJob
unfoldable pub file_add_job : ℕ → ℕ → M (Unit {0})
unfolding file_inc_ref
file_add_job f j = do
  change_job j (λ x. record x { file = some f })
  change_file f (λ x. record x { job_list = x.job_list ++ j ∷ [] })
  file_inc_ref (some f)

abbrev pub erase_job : ℕ → List ℕ → List ℕ
erase_job j [] = []
erase_job j (x ∷ xs) = if x == j then xs else x ∷ erase_job j xs

-- FileRmJob
unfoldable pub file_rm_job : Option ℕ → ℕ → M (Unit {0})
unfolding file_dec_ref
file_rm_job none j = done
file_rm_job (some f) j = do
  x ← get_job j
  when (same_address (some f) x.file) (do
    change_file f (λ y. record y { job_list = erase_job j y.job_list })
    change_job j (λ y. record y { file = none; wal_used = 0 })
    change_wal (λ l. record l { alive = sub64 l.alive x.wal_used })
    file_dec_ref (some f))

-- fileWrite, of `l` bytes
unfoldable pub file_write : ℕ → ℕ → ℕ → M Bool
file_write f j l = do
  w ← read
  modify (λ v. record v { writes = v.writes + 1 })
  if w.outside.writing w.writes
      then (do
        change_wal (λ x. record x { resv = sub64 x.resv l; alive = add64 x.alive l })
        change_file f (λ x. record x { resv = sub64 x.resv l })
        change_job j
            (λ x. record x { wal_resv = sub64 x.wal_resv l; wal_used = add64 x.wal_used l })
        return true)
      else return false

-- binary.Size of an int64 and of a JobRec
abbrev pub int64_size : ℕ
int64_size = 8

abbrev pub job_rec_size : ℕ
job_rec_size = 73

abbrev pub is_invalid : JobState → Bool
is_invalid invalid = true
is_invalid _ = false

-- `a && b` of two actions
abbrev pub and_then : M Bool → M Bool → M Bool
and_then m k = m >>= λ b. if b then k else return false

-- fileWrJobShort
unfoldable pub file_wr_job_short : ℕ → ℕ → M Bool
unfolding file_write file_rm_job
file_wr_job_short f j = and_then (file_write f j int64_size) (
    and_then (file_write f j job_rec_size)
      (do x ← get_job j; when (is_invalid x.r.state) (file_rm_job x.file j); return true))

-- fileWrJobFull
unfoldable pub file_wr_job_full : ℕ → ℕ → M Bool
unfolding file_add_job file_write
file_wr_job_full f j = do
  file_add_job f j
  x ← get_job j
  t ← deref x.tube
  tube ← get_tube t
  and_then (file_write f j int64_size) (
      and_then (file_write f j (length tube.name))
        (and_then (file_write f j job_rec_size) (file_write f j (length x.body))))

-- fileWClose
unfoldable pub file_w_close : Option ℕ → M (Unit {0})
unfolding file_dec_ref
file_w_close none = done
file_w_close (some f) = do
  x ← get_file f
  when x.is_w_open (do change_file f (λ y. record y { is_w_open = false }); file_dec_ref (some f))

-- fileAdd
unfoldable pub file_add : ℕ → M (Unit {0})
file_add f = do
  l ← get_wal
  on_option l.tail done (λ t. change_file t (λ x. record x { next = some f }))
  change_wal (λ x. record x {
    tail = some f;
    head = elim x.head [ none ↦ some f | some h ↦ some h ];
    nfile = add64 x.nfile 1;
  })

-- makeNextFile with fileInit and fileWOpen, by how the opening ends; a path is never empty
unfoldable pub open_next : Opening → M Bool
unfolding file_add
open_next refused = return false
open_next version_panics = panic
open_next opened = do
  w ← read
  let f = w.fresh_file
  let fresh : File = record {
    next = none;
    refs = 1;
    seq = w.wal.next;
    is_w_open = true;
    free = sub64 w.wal.file_size 8;
    resv = 0;
    job_list = [];
  }
  modify (λ v. record v { fresh_file = f + 1 })
  change_file f (λ _. fresh)
  change_wal (λ x. record x { next = add64 x.next 1 })
  file_add f
  return true

-- makeNextFile
unfoldable pub make_next_file : M Bool
unfolding open_next
make_next_file = do w ← read; open_next (w.outside.opening w.wal.next)
