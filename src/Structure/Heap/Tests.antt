-- ===== src/Structure/Heap/Tests.antt =====
-- A queue of numbers, run on concrete inputs.
use gostalkd.Prelude.{ℕ, ◌≡◌, refl, List, [], ◌∷◌, none, some, Perm, arith, ltb, Yields}
use gostalkd.Structure.Heap.{Item, minus_one, push, pop, remove, take_at, new_heap}
use gostalkd.Structure.Heap.Order.{Ranking, values}
use gostalkd.Structure.Heap.Correct.{
  IsValid, Removed, IsLeast, push_correct, pop_correct, remove_correct, take_at-IsLeast,
}

abbrev by_number : Ranking ℕ ltb
by_number = record { rank = λ n. n; less-rank = λ a b. refl }

abbrev item : ℕ → ℕ → Item ℕ
item value index = record { value = value; index = index }

abbrev sample : List (Item ℕ)
sample = item 2 0 ∷ item 5 1 ∷ item 3 2 ∷ item 9 3 ∷ []

sample-IsValid : IsValid by_number sample
sample-IsValid = record { ordered = grind arith; indexed = λ c x e. ground arith }

push_test :
    push ltb sample (item 1 0) ≡ some (item 1 0 ∷ item 2 1 ∷ item 3 2 ∷ item 9 3 ∷ item 5 4 ∷ [])
unfolding push
push_test = refl

pop_test : pop ltb sample ≡ some (item 2 minus_one, item 3 0 ∷ item 5 1 ∷ item 9 2 ∷ [])
unfolding pop
pop_test = refl

remove_test : remove ltb sample 1 ≡ some (item 5 minus_one, item 2 0 ∷ item 9 1 ∷ item 3 2 ∷ [])
unfolding remove
remove_test = refl

empty_test : pop ltb new_heap ≡ none
unfolding pop new_heap
empty_test = refl

push_correct_example :
    Yields
      (λ b. IsValid by_number b × Perm (values b) (1 ∷ values sample))
      (push ltb sample (item 1 0))
push_correct_example = push_correct by_number sample (item 1 0) sample-IsValid

pop_correct_example :
    Yields
      (λ out. Removed by_number sample 2 out × IsLeast by_number sample out.0.value)
      (pop ltb sample)
pop_correct_example = pop_correct by_number sample (item 2 0) sample-IsValid refl

remove_correct_example : Yields (Removed by_number sample 5) (remove ltb sample 1)
remove_correct_example = remove_correct by_number sample 1 (item 5 1) sample-IsValid refl

take_at-IsLeast_example : IsLeast by_number sample 2
unfolding take_at
take_at-IsLeast_example = take_at-IsLeast by_number sample (item 2 0) sample-IsValid refl
