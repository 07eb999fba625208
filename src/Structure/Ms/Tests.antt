-- ===== src/Structure/Ms/Tests.antt =====
-- A list of numbers whose callbacks count, run on concrete inputs.
use gostalkd.Prelude.{
  ℕ, ◌≡◌, ◌+◌, ◌-◌, ◌==◌, ==_iff, refl, false, [], ◌∷◌, some, Perm, length, update,
}
use gostalkd.Structure.Ms.{Ms, Eq, Events, take_next, contains, iterate}
use gostalkd.Structure.Ms.Laws.{takes, takes-perm}
use gostalkd.Structure.Ms.Counted.{count}

instance by_value : Eq ℕ
by_value = record { is_same = λ a b. a == b; is_same_iff = ==_iff }

abbrev counting : Events ℕ (ℕ → ℕ)
counting = record {
  on_insert = some (λ m x i s. update s x (s x + 1));
  on_remove = some (λ m x i s. update s x (s x - 1));
}

abbrev sample : Ms ℕ
sample = record { last = 2; items = 7 ∷ 8 ∷ 7 ∷ [] }

-- The numbers of the sample over a base of one each.
abbrev numbers : ℕ → ℕ
numbers a = 1 + count a (7 ∷ 8 ∷ 7 ∷ [])

take_test : (take_next counting sample numbers).0 ≡ some 7
unfolding take_next
take_test = refl

iterate_test : iterate (λ x s. (x == 8, s + x)) sample.items 0 ≡ 15
unfolding iterate
iterate_test = refl

contains_test : contains sample.items 9 ≡ false
unfolding contains by_value
contains_test = refl

takes-perm_example :
    Perm (takes counting 3 sample numbers).0 sample.items
    × (length (takes counting 3 sample numbers).1.items ≡ 0)
takes-perm_example = takes-perm counting 3 sample numbers refl
