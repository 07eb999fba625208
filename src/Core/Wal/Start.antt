-- ===== src/Core/Wal/Start.antt =====
-- core/file.go and core/wal.go: reading the files of the log at the start: FileRead, walRead and
-- WalInit.
pub mod Rounds
mod Tests
use gostalkd.Prelude.{
  ℕ, zero, suc, ◌+◌, ◌-◌, false, not, [], Option, none, some, Bytes, ◌==◌, if◌then◌else◌, add64,
  length, slt, sub64,
}
use gostalkd.Machine.{File}
use gostalkd.Machine.Actions.{
  on_option, M, ◌>>=◌, ◌>>◌, done, panic, read, modify, change_file, change_wal, get_wal,
}
use gostalkd.Core.Wal.Files.{file_inc_ref, file_dec_ref, file_add, make_next_file}
use gostalkd.Core.Wal.Scan.{Dir, wal_scan_dir}
use gostalkd.Core.Wal.Decode.{little_endian, read_full}
use gostalkd.Core.Wal.Replay.{read_rec, read_rec5}

-- the loops of FileRead, which end with an error, with what is done when the rounds are used up; each
-- round reads at least eight bytes
unfoldable pub read_loop : M (Unit {0}) → ℕ → (Bytes → M (Option Bytes)) → Bytes → M (Unit {0})
read_loop used_up zero rec s = used_up
read_loop used_up (suc fuel) rec s = do
  rest ← rec s
  elim rest [ none ↦ done | some s' ↦ read_loop used_up fuel rec s' ]

-- these loops; to use up the rounds counts as a panic
abbrev pub read_recs : ℕ → (Bytes → M (Option Bytes)) → Bytes → M (Unit {0})
read_recs = read_loop panic

-- FileRead, of the bytes of the file; its result is not used
unfoldable pub file_read : ℕ → ℕ → Bytes → M (Unit {0})
unfolding read_full little_endian file_inc_ref file_dec_ref read_loop read_rec read_rec5
file_read f l s = on_option (read_full 8 s) done (λ (head, rest).
    let version = little_endian head in
    if version == 7
    then (do
      file_inc_ref (some f)
      read_recs (length rest + 1) (read_rec f l) rest
      file_dec_ref (some f))
    else if version == 5
    then (do
      file_inc_ref (some f)
      read_recs (length rest + 1) (read_rec5 f l) rest
      file_dec_ref (some f))
    else done)

-- the body of the loop of walRead, with fileInit: the file of a number, if it can be opened
unfoldable pub read_file : ℕ → ℕ → Option Bytes → M (Unit {0})
unfolding file_add file_read
read_file l seq none = done
read_file l seq (some s) = do
  w ← read
  let f = w.fresh_file
  let fresh : File = record {
    next = none;
    refs = 0;
    seq = seq;
    is_w_open = false;
    free = 0;
    resv = 0;
    job_list = [];
  }
  modify (λ v. record v { fresh_file = f + 1 })
  change_file f (λ _. fresh)
  file_add f
  file_read f l s

-- walRead, of `count` numbers from the least on; `content` gives the bytes of the file of a number
unfoldable pub wal_read : (ℕ → Option Bytes) → ℕ → ℕ → ℕ → M (Unit {0})
unfolding read_file
wal_read content l seq zero = done
wal_read content l seq (suc count) = do
  read_file l seq (content seq)
  wal_read content l (add64 seq 1) count

-- WalInit, of what is in the directory of the log; ParseInt is a parameter as in walScanDir
unfoldable pub wal_init : (Bytes → Option ℕ) → (ℕ → Option Bytes) → Dir → ℕ → M (Unit {0})
unfolding wal_scan_dir wal_read make_next_file
wal_init parse_int content dir l = do
  least ← wal_scan_dir parse_int dir
  x ← get_wal
  wal_read content l least (if slt least x.next then sub64 x.next least else 0)
  made ← make_next_file
  if not made then panic else change_wal (λ y. record y { cur = y.tail })
