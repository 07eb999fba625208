-- ===== src/Core/Wal/Laws.antt =====
-- What moving a reservation between two files keeps (core/wal.go: moveResv).
use gostalkd.Prelude.{
  ℕ, ◌≡◌, ◌≢◌, ◌<◌, refl, ◌∙◌, Bool-cases, inl, inr, update, add64, sub64, mod64, arith, ◌==◌,
  Yields, yields,
}
use gostalkd.Core.Wal.Space.{move_resv}
use gostalkd.Machine.{World, File}

-- The bytes of a file that are free or reserved.
abbrev pub unwritten : File → ℕ
unwritten f = add64 f.resv f.free

give_back : (r f n : ℕ) → n < mod64 → add64 (sub64 r n) (add64 f n) ≡ add64 r f
give_back r f n lt = omega arith

take_over : (r f n : ℕ) → n < mod64 → add64 (add64 r n) (sub64 f n) ≡ add64 r f
take_over r f n lt = omega arith

abbrev gives : ℕ → File → File
gives n x = record x { resv = sub64 x.resv n; free = add64 x.free n }

abbrev takes : ℕ → File → File
takes n x = record x { resv = add64 x.resv n; free = sub64 x.free n }

update-unwritten :
    (files : ℕ → File) (a : ℕ) (g : File → File) (f : ℕ)
    → unwritten (g (files a)) ≡ unwritten (files a)
    → unwritten (update files a (g (files a)) f) ≡ unwritten (files f)
update-unwritten files a g f h = elim (Bool-cases (f == a)) [
  | inl e ↦ (let same : f ≡ a = ground arith in rw (e, same) h)
  | inr e ↦ rw e refl
]

-- Moving a reservation of less than 2 ^ 64 between two different files does not panic, changes
-- in no file the sum of the free and the reserved bytes, and keeps the sum of what the two files
-- have reserved.
pub move_resv-unwritten :
    (to from n : ℕ) (w : World)
    → n < mod64
    → to ≢ from
    → Yields
        (λ out.
          ((f : ℕ) → unwritten (out.1.file f) ≡ unwritten (w.file f))
          × (add64 (out.1.file to).resv (out.1.file from).resv
              ≡ add64 (w.file to).resv (w.file from).resv))
        (move_resv to from n w)
unfolding move_resv
move_resv-unwritten to from n w lt away = yields (
  (λ f.
      let files = update w.file from (gives n (w.file from)) in
      update-unwritten files to (takes n) f (take_over (files to).resv (files to).free n lt)
      ∙ update-unwritten w.file from (gives n) f
          (give_back (w.file from).resv (w.file from).free n lt)),
  ground arith,
)
