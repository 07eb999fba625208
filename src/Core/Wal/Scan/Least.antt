-- ===== src/Core/Wal/Scan/Least.antt =====
-- The numbers that walScanDir (core/wal.go) finds.
use gostalkd.Prelude.{
  ℕ, ◌+◌, ◌-◌, ◌<◌, ◌≤◌, ◌≡◌, refl, ◌⊎◌, inl, inr, true, false, Bool-cases, List, [], ◌∷◌, Option,
  some, Bytes, half64, slt, if◌then◌else◌, add64, arith, All, Yields, yields, Yields-mono,
  Yields-some,
}
use gostalkd.Machine.{World}
use gostalkd.Core.Wal.Scan.{
  Entry, unknown, directory, file, listed, has_prefix, base, no_file, number_of, visit, visits,
  wal_scan_dir,
}

module _ (parse_int : Bytes → Option ℕ) where
  -- A directory, another file, or a file of the log with a number that is not negative and below
  -- the greatest int64.
  abbrev pub IsUsual : Entry → Type 0
  IsUsual unknown = ⊥
  IsUsual directory = Unit
  IsUsual (file name) =
      (has_prefix base name ≡ false)
      ⊎ ((n : ℕ) × (number_of parse_int name ≡ some n) × (n < half64 - 1))

  -- A file of the log has a number between the two.
  abbrev pub IsBetween : ℕ → ℕ → Entry → Type 0
  IsBetween lo hi unknown = Unit
  IsBetween lo hi directory = Unit
  IsBetween lo hi (file name) =
      (n : ℕ)
      → has_prefix base name ≡ true
      → number_of parse_int name ≡ some n
      → (lo ≤ n) × (n ≤ hi)

  -- What a visit does to the bounds.
  record Widened (e : Entry) (lo hi : ℕ) (b : ℕ × ℕ) : Type 0 where
    down : b.0 ≤ lo
    up : hi ≤ b.1
    small : b.1 < half64 - 1
    between : (lo' hi' : ℕ) → lo' ≤ b.0 → b.1 ≤ hi' → IsBetween lo' hi' e

  number-Widened :
      (name : Bytes) (n lo hi : ℕ)
      → number_of parse_int name ≡ some n
      → n < half64 - 1
      → lo ≤ no_file
      → hi < half64 - 1
      → Widened (file name) lo hi (if slt n lo then n else lo, if slt hi n then n else hi)
  number-Widened name n lo hi e lt le small = record {
    down = ground arith;
    up = ground arith;
    small = ground arith;
    between = λ lo' hi' h k m p q. let same : m ≡ n = cc in (ground arith, ground arith);
  }

  other-Widened :
      (name : Bytes) (lo hi : ℕ)
      → has_prefix base name ≡ false
      → hi < half64 - 1
      → Yields (Widened (file name) lo hi) (visit parse_int (file name) (lo, hi))
  unfolding visit
  other-Widened name lo hi e small =
      rw (visit, e)
        (yields (record {
          down = omega arith;
          up = omega arith;
          small = small;
          between = λ lo' hi' h k n p q. absurd (cc);
        }))

  visit-Widened :
      (e : Entry) (lo hi : ℕ)
      → IsUsual e
      → lo ≤ no_file
      → hi < half64 - 1
      → Yields (Widened e lo hi) (visit parse_int e (lo, hi))
  unfolding visit
  visit-Widened unknown lo hi u le small = absurd u
  visit-Widened directory lo hi u le small =
      yields (record {
        down = omega arith;
        up = omega arith;
        small = small;
        between = λ lo' hi' h k. tt;
      })
  visit-Widened (file name) lo hi (inl e) le small = other-Widened name lo hi e small
  visit-Widened (file name) lo hi (inr (n, e, lt)) le small =
      elim (Bool-cases (has_prefix base name)) [
        | inl t ↦ rw (visit, t, e) (yields (number-Widened name n lo hi e lt le small))
        | inr f ↦ other-Widened name lo hi f small
      ]

  -- the bounds over all the entries
  record Spans (es : List Entry) (lo hi : ℕ) (b : ℕ × ℕ) : Type 0 where
    down : b.0 ≤ lo
    up : hi ≤ b.1
    small : b.1 < half64 - 1
    between : All (IsBetween b.0 b.1) es

  visits-Spans :
      (es : List Entry) (lo hi : ℕ)
      → All IsUsual es
      → lo ≤ no_file
      → hi < half64 - 1
      → Yields (Spans es lo hi) (visits parse_int es (lo, hi))
  unfolding visits
  visits-Spans [] lo hi us le small =
      yields (record { down = omega arith; up = omega arith; small = small; between = tt })
  visits-Spans (e ∷ es) lo hi (u, us) le small =
      let ((lo', hi'), eq, one) = Yields-some (visit-Widened e lo hi u le small) in
      let less = one.down in
      rw (visits, eq)
        (Yields-mono (visits-Spans es lo' hi' us (omega (arith, less)) one.small) λ b rest.
          let down = rest.down in
          let up = rest.up in
          record {
            down = omega (arith, less, down);
            up = (let more = one.up in omega (arith, more, up));
            small = rest.small;
            between = (one.between b.0 b.1 down up, rest.between);
          })

  -- If every entry of the directory is a directory, a file whose name does not begin with "binlog.",
  -- or a file whose name goes on with a number from 0 to 2 ^ 63 - 2, then walScanDir does not panic,
  -- returns a number up to 2 ^ 30, and changes nothing but Next; the number of each file of the log
  -- is not below the one returned and is below Next.
  pub wal_scan_dir-IsBetween :
      (es : List Entry) (w : World)
      → All IsUsual es
      → Yields
          (λ out.
            (out.0 ≤ no_file)
            × ((hi : ℕ) × (out.1 ≡ record w { wal = record (w.wal) { next = hi + 1 } })
                × All (IsBetween out.0 hi) es))
          (wal_scan_dir parse_int (listed es) w)
  unfolding wal_scan_dir
  wal_scan_dir-IsBetween es w us =
      let (b, eq, all) = Yields-some (visits-Spans es no_file 0 us (omega arith) (omega arith)) in
      let small = all.small in
      let sum : add64 b.1 1 ≡ b.1 + 1 = omega (arith, small) in
      rw (wal_scan_dir, eq) (yields (all.down, (b.1, rw sum refl, all.between)))
