-- ===== src/Core/Wal/Quiet.antt =====
-- The log of core/wal.go and core/file.go leaves connections and tubes alone.
use gostalkd.Prelude.{ℕ, zero, suc, List, [], ◌∷◌, Option, none, some}
use gostalkd.Machine.Frame.{Quiets, ends, Ends-elim, Quiet-refl, Quiets-bind, quiet}
use gostalkd.Machine.{Opening, refused, version_panics, opened}
use gostalkd.Core.Wal.Files.{
  wal_gc, file_inc_ref, file_dec_ref, file_add_job, file_rm_job, file_write, file_wr_job_short,
  file_wr_job_full, file_w_close, file_add, make_next_file, open_next, dead_head, drop_head,
}
use gostalkd.Core.Wal.Space.{
  move_resv, need_free, use_next, balance_rest, balance_loop, balance, charge, uncharge, reserve,
  wal_resv_update, full_size, wal_resv_migrate, wal_resv_put,
}
use gostalkd.Core.Wal.Record.{
  write_record, wal_write, move_one, move_first, compact_loop, wal_compact, wal_sync, wal_main,
}

drop_head-quiet : (f : ℕ) → Quiets (drop_head f)
unfolding drop_head
drop_head-quiet f = search quiet depth 60 fits 4000

dead_head-quiet : Quiets dead_head
unfolding dead_head
dead_head-quiet = record {
  at = λ w. Ends-elim w.wal.head (ends (Quiet-refl w)) (λ f. ends (Quiet-refl w));
}

wal_gc-quiet : Quiets wal_gc
unfolding wal_gc
wal_gc-quiet = search (drop_head-quiet, dead_head-quiet, quiet) depth 60 fits 4000

file_inc_ref-quiet : (f : Option ℕ) → Quiets (file_inc_ref f)
unfolding file_inc_ref
file_inc_ref-quiet none = search quiet depth 60 fits 4000
file_inc_ref-quiet (some f) = search quiet depth 60 fits 4000

file_dec_ref-quiet : (f : Option ℕ) → Quiets (file_dec_ref f)
unfolding file_dec_ref
file_dec_ref-quiet none = search quiet
file_dec_ref-quiet (some f) = search (wal_gc-quiet, quiet) depth 60 fits 4000

pub file_add_job-quiet : (f j : ℕ) → Quiets (file_add_job f j)
unfolding file_add_job
file_add_job-quiet f j = search (file_inc_ref-quiet, quiet) depth 60 fits 4000

pub file_rm_job-quiet : (f : Option ℕ) (j : ℕ) → Quiets (file_rm_job f j)
unfolding file_rm_job
file_rm_job-quiet none j = search quiet
file_rm_job-quiet (some f) j = search (file_dec_ref-quiet, quiet) depth 60 fits 4000

file_write-quiet : (f j l : ℕ) → Quiets (file_write f j l)
unfolding file_write
file_write-quiet f j l = search quiet depth 60 fits 4000

file_wr_job_short-quiet : (f j : ℕ) → Quiets (file_wr_job_short f j)
unfolding file_wr_job_short
file_wr_job_short-quiet f j = search (file_write-quiet, file_rm_job-quiet, quiet) depth 60 fits 4000

file_wr_job_full-quiet : (f j : ℕ) → Quiets (file_wr_job_full f j)
unfolding file_wr_job_full
file_wr_job_full-quiet f j = search (file_write-quiet, file_add_job-quiet, quiet) depth 60 fits 4000

file_w_close-quiet : (f : Option ℕ) → Quiets (file_w_close f)
unfolding file_w_close
file_w_close-quiet none = search quiet
file_w_close-quiet (some f) = search (file_dec_ref-quiet, quiet) depth 60 fits 4000

file_add-quiet : (f : ℕ) → Quiets (file_add f)
unfolding file_add
file_add-quiet f = search quiet depth 60 fits 4000

pub open_next-quiet : (o : Opening) → Quiets (open_next o)
unfolding open_next
open_next-quiet refused = search quiet
open_next-quiet version_panics = search quiet
open_next-quiet opened = search (file_add-quiet, quiet) depth 60 fits 4000

pub make_next_file-quiet : Quiets make_next_file
unfolding make_next_file
make_next_file-quiet = search (open_next-quiet, quiet) depth 60 fits 4000

move_resv-quiet : (to from n : ℕ) → Quiets (move_resv to from n)
unfolding move_resv
move_resv-quiet to from n = search quiet depth 60 fits 4000

need_free-quiet : (n : ℕ) → Quiets (need_free n)
unfolding need_free
need_free-quiet n = search (make_next_file-quiet, quiet) depth 60 fits 4000

use_next-quiet : Quiets use_next
unfolding use_next
use_next-quiet = search (file_w_close-quiet, quiet) depth 60 fits 4000

balance_rest-quiet : (fuel : ℕ) (b : Option ℕ) (n : ℕ) → Quiets (balance_rest fuel b n)
unfolding balance_rest
balance_rest-quiet fuel none n = search quiet
balance_rest-quiet zero (some b) n = search quiet
balance_rest-quiet (suc fuel) (some b) n =
    search (balance_rest-quiet fuel, move_resv-quiet, need_free-quiet, quiet) depth 60 fits 4000

balance_loop-quiet : (fuel n : ℕ) → Quiets (balance_loop fuel n)
unfolding balance_loop
balance_loop-quiet zero n = search quiet
balance_loop-quiet (suc fuel) n =
    search (balance_loop-quiet fuel, move_resv-quiet, need_free-quiet, use_next-quiet, quiet) depth
      60 fits 4000

balance-quiet : (n : ℕ) → Quiets (balance n)
unfolding balance
balance-quiet n = search (balance_loop-quiet, balance_rest-quiet, quiet) depth 60 fits 4000

charge-quiet : (f n : ℕ) → Quiets (charge f n)
unfolding charge
charge-quiet f n = search quiet depth 60 fits 4000

uncharge-quiet : (f n : ℕ) → Quiets (uncharge f n)
unfolding uncharge
uncharge-quiet f n = search quiet depth 60 fits 4000

reserve-quiet : (n : ℕ) → Quiets (reserve n)
unfolding reserve
reserve-quiet n =
    search (need_free-quiet, balance-quiet, charge-quiet, uncharge-quiet, quiet) depth 60 fits 4000

pub wal_resv_update-quiet : Quiets wal_resv_update
unfolding wal_resv_update
wal_resv_update-quiet = search (reserve-quiet, quiet) depth 60 fits 4000

full_size-quiet : (j : ℕ) → Quiets (full_size j)
unfolding full_size
full_size-quiet j = search quiet depth 60 fits 4000

wal_resv_migrate-quiet : (j : ℕ) → Quiets (wal_resv_migrate j)
unfolding wal_resv_migrate
wal_resv_migrate-quiet j = search (full_size-quiet, reserve-quiet, quiet) depth 60 fits 4000

pub wal_resv_put-quiet : (j : ℕ) → Quiets (wal_resv_put j)
unfolding wal_resv_put
wal_resv_put-quiet j = search (full_size-quiet, reserve-quiet, quiet) depth 60 fits 4000

write_record-quiet : (j : ℕ) → Quiets (write_record j)
unfolding write_record
write_record-quiet j =
    search (file_wr_job_short-quiet, file_wr_job_full-quiet, quiet) depth 60 fits 4000

pub wal_write-quiet : (j : ℕ) → Quiets (wal_write j)
unfolding wal_write
wal_write-quiet j =
    search (write_record-quiet, use_next-quiet, file_w_close-quiet, quiet) depth 60 fits 4000

move_first-quiet : (h : ℕ) (l : List ℕ) → Quiets (move_first h l)
unfolding move_first
move_first-quiet h [] = search quiet
move_first-quiet h (j ∷ js) =
    search (file_rm_job-quiet, wal_resv_migrate-quiet, wal_write-quiet, quiet) depth 60 fits 4000

move_one-quiet : Quiets move_one
unfolding move_one
move_one-quiet = search (move_first-quiet, quiet) depth 60 fits 4000

compact_loop-quiet : (n : ℕ) → Quiets (compact_loop n)
unfolding compact_loop
compact_loop-quiet zero = search quiet
compact_loop-quiet (suc n) = Quiets-bind move_one-quiet λ _. compact_loop-quiet n

wal_compact-quiet : Quiets wal_compact
unfolding wal_compact
wal_compact-quiet = search (compact_loop-quiet, quiet) depth 60 fits 4000

wal_sync-quiet : Quiets wal_sync
unfolding wal_sync
wal_sync-quiet = search quiet depth 60 fits 4000

pub wal_main-quiet : Quiets wal_main
unfolding wal_main
wal_main-quiet = search (wal_compact-quiet, wal_sync-quiet, quiet) depth 60 fits 4000
