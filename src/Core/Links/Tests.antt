-- ===== src/Core/Links/Tests.antt =====
-- A ring of jobs, run on concrete addresses.
use gostalkd.Prelude.{ℕ, ◌≡◌, refl, [], ◌∷◌, some, arith}
use gostalkd.Core.Links.{Links, list_insert, list_remove}
use gostalkd.Core.Links.Rings.{Ring, IsAlone}
use gostalkd.Core.Links.Insert.{list_insert-Ring}
use gostalkd.Core.Links.Remove.{list_remove-Ring}

-- Every job alone.
abbrev apart : Links
apart = record { prev = λ j. j; next = λ j. j }

apart-Ring : Ring apart 0 []
apart-Ring = record { chain = (refl, refl); distinct = (tt, tt) }

apart-IsAlone : (j : ℕ) → IsAlone apart j
apart-IsAlone j = record { no_next = refl; no_prev = refl }

insert_test : (list_insert (list_insert apart 0 1) 0 2).next 1 ≡ 2
unfolding list_insert
insert_test = refl

abbrev one_job : Links
unfolding list_insert
one_job = list_insert apart 0 1

one_job-Ring : Ring one_job 0 (1 ∷ [])
unfolding one_job
one_job-Ring = list_insert-Ring apart 0 [] 1 apart-Ring (apart-IsAlone 1) (omega arith, tt)

one_job-IsAlone : IsAlone one_job 2
unfolding one_job list_insert
one_job-IsAlone = record { no_next = refl; no_prev = refl }

list_insert-Ring_example : Ring (list_insert one_job 0 2) 0 (1 ∷ 2 ∷ [])
list_insert-Ring_example =
    list_insert-Ring one_job 0 (1 ∷ []) 2 one_job-Ring one_job-IsAlone
      (omega arith, (omega arith, tt))

list_remove-Ring_example :
    ((list_remove one_job (some 1)).0 ≡ some 1)
    × Ring (list_remove one_job (some 1)).1 0 []
    × IsAlone (list_remove one_job (some 1)).1 1
list_remove-Ring_example = list_remove-Ring one_job 0 [] 1 [] one_job-Ring
