-- ===== src/Core/Tube/Awaited.antt =====
-- NextAwaitedJob and SoonestDelayedJob choose the best of what the tubes offer.
use gostalkd.Prelude.{
  ◌⊎◌, ℕ, ◌≡◌, refl, sym, ◌∙◌, ap, Bool, true, false, List, [], ◌∷◌, map, Option, none, some, arith,
  ltb, ◌==◌, if◌then◌else◌, bias, slt, positive, length, update, Bool-cases, inl, inr,
}
use gostalkd.Structure.Heap.{Item, take_at}
use gostalkd.Structure.Heap.Order.{Ranking}
use gostalkd.Core.Job.{Job, Jobs, job_pri_less}
use gostalkd.Core.Job.Order.{IdsFit, pri_ranking}
use gostalkd.Core.Tube.{
  Tube, Tubes, is_paused, wake, awaited_round, awaited_loop, next_awaited_job, soonest_round,
  soonest_loop, soonest_delayed_job,
}
use gostalkd.Core.Tube.Pick.{pick, pick_all, IsBest, pick_all-none}

-- The job at index 0 of a heap.
abbrev pub head_of : List (Item ℕ) → Option ℕ
head_of items = elim (take_at items 0) [ none ↦ none | some item ↦ some item.value ]

-- What a tube offers to a waiting connection: the job at the head of its ready heap, unless the
-- tube is paused at that time or no connection waits on it.
abbrev pub offer : Tube → ℕ → Option ℕ
offer t now =
    if is_paused t now
    then none
    else if ltb 0 (length t.waiting_conns.items)
    then head_of t.ready
    else none

head_nil : (items : List (Item ℕ)) → ltb 0 (length items) ≡ false → head_of items ≡ none
unfolding take_at
head_nil [] h = refl
head_nil (x ∷ items) h = absurd (ground arith)

head_full :
    (items : List (Item ℕ))
    → ltb 0 (length items) ≡ true
    → (x : Item ℕ) × (take_at items 0 ≡ some x)
unfolding take_at
head_full [] h = absurd (ground arith)
head_full (x ∷ items) h = (x, refl)

awaited_round_lem :
    (at : ℕ → Job) (t : Tube) (best : Option ℕ)
    → awaited_round at t best
      ≡ pick
          (job_pri_less at)
          best
          (if ltb 0 (length t.waiting_conns.items) then head_of t.ready else none)
unfolding awaited_round
awaited_round_lem at t best = elim (Bool-cases (ltb 0 (length t.ready))) [
  | inl q ↦ let (x, e) = head_full t.ready q in ground (arith, q, e)
  | inr q ↦ ground (arith, q, head_nil t.ready q)
]

abbrev SameOffers : ℕ → (ℕ → Tube) → (ℕ → Tube) → Type 0
SameOffers now f g = (t : ℕ) → offer (f t) now ≡ offer (g t) now

wake-same : (t : Tube) → positive t.pause ≡ false → wake t ≡ t
unfolding wake
wake-same t p = rw (p, wake)

wake-offer : (t : Tube) (now : ℕ) → offer (wake t) now ≡ offer t now ⊎ (is_paused t now ≡ true)
unfolding wake
wake-offer t now = elim (Bool-cases (positive t.pause)) [
  | inl p ↦ elim (Bool-cases (slt now t.unpause_at)) [
    | inl q ↦ inr (rw (p, q))
    | inr q ↦ inl (rw (p, q))
  ]
  | inr p ↦ inl (ap (λ u. offer u now) (wake-same t p))
]

wake-waiting : (t : Tube) → ((wake t).waiting_conns ≡ t.waiting_conns) × ((wake t).ready ≡ t.ready)
unfolding wake
wake-waiting t = ground arith

awaited_step :
    (at : ℕ → Job) (now : ℕ) (t : Tube) (best : Option ℕ)
    → (if is_paused t now then best else awaited_round at (wake t) best)
      ≡ pick (job_pri_less at) best (offer t now)
awaited_step at now t best = elim (Bool-cases (is_paused t now)) [
  | inl p ↦ rw p
  | inr p ↦ let (w, e) = wake-waiting t in rw (p, awaited_round_lem at (wake t) best, w, e)
]

SameOffers-wake :
    (now t : ℕ) (tube start : ℕ → Tube)
    → SameOffers now tube start
    → SameOffers now (if is_paused (tube t) now then tube else update tube t (wake (tube t))) start
SameOffers-wake now t tube start h = elim (Bool-cases (is_paused (tube t) now)) [
  | inl p ↦ rw p h
  | inr p ↦ rw p λ u. elim (Bool-cases (u == t)) [
    | inl q ↦
        let same : u ≡ t = ground arith in
        rw q (elim (wake-offer (tube t) now) [
          | inl e ↦ e ∙ ap (λ v. offer (tube v) now) (sym same) ∙ h u
          | inr e ↦ absurd (cc)
        ])
    | inr q ↦ rw q (h u)
  ]
]

module _ (at : ℕ → Job) (now : ℕ) (start : ℕ → Tube) where
  awaited_loop_lem :
      (ts : List ℕ) (tube : ℕ → Tube) (best : Option ℕ)
      → SameOffers now tube start
      → (awaited_loop at now ts tube best).0
        ≡ pick_all (job_pri_less at) best (map (λ t. offer (start t) now) ts)
  unfolding awaited_loop
  awaited_loop_lem [] tube best h = refl
  awaited_loop_lem (t ∷ ts) tube best h =
      awaited_loop_lem ts _ _ (SameOffers-wake now t tube start h)
      ∙ ap (λ b. pick_all (job_pri_less at) b (map (λ u. offer (start u) now) ts))
          (awaited_step at now (tube t) best ∙ ap (pick (job_pri_less at) best) (h t))

-- If all ids fit 64 bits: NextAwaitedJob gives nil exactly if no tube offers a job, and otherwise an offered job that no
-- other offered job is before: of lower priority value, or of the same one and a lower id.
pub next_awaited_job-IsBest :
    (js : Jobs) (ts : Tubes) (now : ℕ)
    → IdsFit js.at
    → IsBest
        (job_pri_less js.at)
        (map (λ t. offer (ts.at t) now) ts.tubes.items)
        (next_awaited_job js ts now).0
unfolding next_awaited_job
next_awaited_job-IsBest js ts now fit =
    rw (awaited_loop_lem js.at now ts.at ts.tubes.items ts.at none (λ t. refl))
      (pick_all-none (pri_ranking js.at fit) _)

-- The deadlines of two jobs, in order.
abbrev pub due_before : (ℕ → Job) → ℕ → ℕ → Bool
due_before at a b = slt (at a).r.deadline_at (at b).r.deadline_at

due_ranking : (at : ℕ → Job) → Ranking ℕ (due_before at)
due_ranking at = record { rank = λ a. bias (at a).r.deadline_at; less-rank = λ a b. refl }

soonest_round_lem :
    (at : ℕ → Job) (t : Tube) (best : Option ℕ)
    → soonest_round at t best ≡ pick (due_before at) best (head_of t.delay)
unfolding soonest_round
soonest_round_lem at t best = elim (Bool-cases (ltb 0 (length t.delay))) [
  | inl q ↦ let (x, e) = head_full t.delay q in ground (arith, q, e)
  | inr q ↦ ground (arith, q, head_nil t.delay q)
]

soonest_loop_lem :
    (at : ℕ → Job) (tube : ℕ → Tube) (ts : List ℕ) (best : Option ℕ)
    → soonest_loop at tube ts best
      ≡ pick_all (due_before at) best (map (λ t. head_of (tube t).delay) ts)
unfolding soonest_loop
soonest_loop_lem at tube [] best = refl
soonest_loop_lem at tube (t ∷ ts) best =
    soonest_loop_lem at tube ts (soonest_round at (tube t) best)
    ∙ ap (λ b. pick_all (due_before at) b (map (λ u. head_of (tube u).delay) ts))
        (soonest_round_lem at (tube t) best)

-- SoonestDelayedJob gives nil exactly if every delay heap is empty at its head, and otherwise a
-- head that no other one is due before.
pub soonest_delayed_job-IsBest :
    (js : Jobs) (ts : Tubes)
    → IsBest
        (due_before js.at)
        (map (λ t. head_of (ts.at t).delay) ts.tubes.items)
        (soonest_delayed_job js ts)
unfolding soonest_delayed_job
soonest_delayed_job-IsBest js ts =
    rw (soonest_loop_lem js.at ts.at ts.tubes.items none) (pick_all-none (due_ranking js.at) _)
