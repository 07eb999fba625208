-- ===== src/Core/Wal/Scan/Tests.antt =====
-- A directory of the log, on a concrete input.
use gostalkd.Prelude.{
  ℕ, ◌+◌, ◌-◌, ◌≤◌, ◌≡◌, refl, inl, inr, List, [], ◌∷◌, Option, none, some, Bytes, codes, arith,
  All, Yields,
}
use gostalkd.Machine.Sample.{sample_world}
use gostalkd.Core.Wal.Scan.{Entry, directory, file, listed, no_file, wal_scan_dir}
use gostalkd.Core.Wal.Scan.Least.{IsBetween, wal_scan_dir-IsBetween}

-- numbers of one digit
abbrev one_digit : Bytes → Option ℕ
one_digit (c ∷ []) = some (c - 48)
one_digit _ = none

abbrev entries : List Entry
entries = directory ∷ file (codes "lock") ∷ file (codes "binlog.3") ∷ file (codes "binlog.2") ∷ []

wal_scan_dir-IsBetween_example :
    Yields
      (λ out.
        (out.0 ≤ no_file)
        × ((hi : ℕ) × (out.1
              ≡ record sample_world { wal = record (sample_world.wal) { next = hi + 1 } })
            × All (IsBetween one_digit out.0 hi) entries))
      (wal_scan_dir one_digit (listed entries) sample_world)
wal_scan_dir-IsBetween_example =
    wal_scan_dir-IsBetween one_digit entries sample_world
      (tt, (inl refl, (inr (3, refl, omega arith), (inr (2, refl, omega arith), tt))))
