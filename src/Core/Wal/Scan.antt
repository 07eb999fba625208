-- ===== src/Core/Wal/Scan.antt =====
-- core/wal.go: walScanDir, which looks for the files of the log in its directory.
pub mod Least
mod Tests
use gostalkd.Prelude.{
  ℕ, ◌+◌, ◌^◌, Bool, true, false, ◌&&◌, List, [], ◌∷◌, Option, none, some, Bytes, codes, drop, ◌==◌,
  if◌then◌else◌, add64, slt,
}
use gostalkd.Machine.Actions.{M, ◌>>=◌, ◌>>◌, return, panic, change_wal, on_option}

-- What filepath.Walk calls its function with: no information, a directory, or a file's name.
pub data Entry : Type 0 where
  unknown directory : Entry
  file : Bytes → Entry

-- What os.Open and filepath.Walk find: no directory, one that cannot be opened, or its entries.
pub data Dir : Type 0 where
  missing unreadable : Dir
  listed : List Entry → Dir

-- strings.HasPrefix
abbrev pub has_prefix : Bytes → Bytes → Bool
has_prefix [] s = true
has_prefix (c ∷ p) [] = false
has_prefix (c ∷ p) (d ∷ s) = (c == d) && has_prefix p s

abbrev pub base : Bytes
base = codes "binlog."

-- the least number before any file is found
abbrev pub no_file : ℕ
no_file = 2 ^ 30

-- strconv.ParseInt of what follows "binlog."
abbrev pub number_of : (Bytes → Option ℕ) → Bytes → Option ℕ
number_of parse_int name = parse_int (drop 7 name)

-- the function that filepath.Walk calls, with the least and the greatest number; its error makes
-- walScanDir panic
unfoldable pub visit : (Bytes → Option ℕ) → Entry → ℕ × ℕ → Option (ℕ × ℕ)
visit parse_int unknown b = none
visit parse_int directory b = some b
visit parse_int (file name) (least, greatest) =
    if has_prefix base name
    then on_option (number_of parse_int name) none
        (λ n. some (if slt n least then n else least, if slt greatest n then n else greatest))
    else some (least, greatest)

unfoldable pub visits : (Bytes → Option ℕ) → List Entry → ℕ × ℕ → Option (ℕ × ℕ)
unfolding visit
visits parse_int [] b = some b
visits parse_int (e ∷ es) b = on_option (visit parse_int e b) none (visits parse_int es)

-- walScanDir; strconv.ParseInt, with the base 10 and 64 bits, is a parameter
unfoldable pub wal_scan_dir : (Bytes → Option ℕ) → Dir → M ℕ
unfolding visits
wal_scan_dir parse_int missing = return no_file
wal_scan_dir parse_int unreadable = panic
wal_scan_dir parse_int (listed es) =
    on_option (visits parse_int es (no_file, 0)) panic (λ (least, greatest). (do
      change_wal (λ x. record x { next = add64 greatest 1 })
      return least))
