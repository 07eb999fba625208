-- ===== src/Core/Tube.antt =====
-- core/tube.go: the tubes, and which job is next.
pub mod Pick
pub mod Awaited
pub mod Find
mod Tests
use gostalkd.Prelude.{
  ℕ, ◌+◌, ◌≡◌, Bool, true, false, not, ◌&&◌, ◌||◌, List, [], ◌∷◌, ◌++◌, Option, none, some, Bytes,
  ltb, leb, ◌==◌, if◌then◌else◌, slt, positive, length, codes, update,
}
use gostalkd.Structure.Heap.{Item, new_heap, take_at}
use gostalkd.Structure.Ms.{Ms, new_ms}
use gostalkd.Core.Links.{list_reset}
use gostalkd.Core.Job.{Job, Jobs, new_job, job_pri_less}

-- model.State, the counters of a tube
pub record Stat : Type 0 where
  pub urgent_ct : ℕ
  pub waiting_ct : ℕ
  pub buried_ct : ℕ
  pub reserved_ct : ℕ
  pub pause_ct : ℕ
  pub total_delete_ct : ℕ
  pub total_jobs_ct : ℕ

abbrev pub zero_stat : Stat
zero_stat = record {
  urgent_ct = 0;
  waiting_ct = 0;
  buried_ct = 0;
  reserved_ct = 0;
  pause_ct = 0;
  total_delete_ct = 0;
  total_jobs_ct = 0;
}

-- model.Tube; the heaps hold the addresses of jobs, the list the addresses of connections
pub record Tube : Type 0 where
  pub name : Bytes
  pub ready : List (Item ℕ)
  pub delay : List (Item ℕ)
  pub waiting_conns : Ms ℕ
  pub stat : Stat
  pub using_ct : ℕ
  pub watching_ct : ℕ
  pub pause : ℕ
  pub unpause_at : ℕ
  pub buried : ℕ

-- The tubes in memory, and the package variables tubes and defaultTube.
pub record Tubes : Type 0 where
  pub at : ℕ → Tube
  pub fresh : ℕ
  pub tubes : Ms ℕ
  pub default_tube : ℕ

-- NewTube at the time `now`, which sets the creation time of the head of the buried list
unfoldable pub new_tube : Jobs → Tubes → ℕ → Bytes → ℕ × Jobs × Tubes
unfolding new_job list_reset new_heap
new_tube js ts now name =
    let (head, js₁) = new_job js now 0 in
    let t : Tube = record {
      name = name;
      ready = new_heap;
      delay = new_heap;
      waiting_conns = new_ms;
      stat = zero_stat;
      using_ct = 0;
      watching_ct = 0;
      pause = 0;
      unpause_at = 0;
      buried = head;
    } in
    (
      ts.fresh,
      record js₁ { links = list_reset js₁.links head },
      record ts { at = update ts.at ts.fresh t; fresh = ts.fresh + 1 },
    )

-- MakeAndInsertTube; the list of tubes has no callbacks
unfoldable pub make_and_insert_tube : Jobs → Tubes → ℕ → Bytes → ℕ × Jobs × Tubes
unfolding new_tube
make_and_insert_tube js ts now name =
    let (t, js₁, ts₁) = new_tube js ts now name in
    (t, js₁, record ts₁ { tubes = record (ts₁.tubes) { items = ts₁.tubes.items ++ t ∷ [] } })

-- `==` of two names
abbrev pub same_name : Bytes → Bytes → Bool
same_name [] [] = true
same_name [] (d ∷ t) = false
same_name (c ∷ s) [] = false
same_name (c ∷ s) (d ∷ t) = (c == d) && same_name s t

-- the loop of TubeFind
unfoldable pub find_loop : (ℕ → Tube) → List ℕ → Bytes → Option ℕ
find_loop at [] name = none
find_loop at (t ∷ ts) name =
    let rest = find_loop at ts name in if same_name (at t).name name then some t else rest

-- TubeFind
unfoldable pub tube_find : Tubes → Bytes → Option ℕ
unfolding find_loop
tube_find ts name = find_loop ts.at ts.tubes.items name

-- TubeFindOrMake
unfoldable pub tube_find_or_make : Jobs → Tubes → ℕ → Bytes → ℕ × Jobs × Tubes
unfolding find_loop make_and_insert_tube
tube_find_or_make js ts now name = elim (find_loop ts.at ts.tubes.items name) [
  | some t ↦ (t, js, ts)
  | none ↦ make_and_insert_tube js ts now name
]

-- one round of SoonestDelayedJob
soonest_round : (ℕ → Job) → Tube → Option ℕ → Option ℕ
soonest_round at t best = if length t.delay == 0 then best else elim (take_at t.delay 0) [
  | none ↦ best
  | some item ↦ elim best [
    | none ↦ some item.value
    | some j ↦
        if slt (at item.value).r.deadline_at (at j).r.deadline_at then some item.value else some j
  ]
]

soonest_loop : (ℕ → Job) → (ℕ → Tube) → List ℕ → Option ℕ → Option ℕ
soonest_loop at tube [] best = best
soonest_loop at tube (t ∷ ts) best = soonest_loop at tube ts (soonest_round at (tube t) best)

-- SoonestDelayedJob
unfoldable pub soonest_delayed_job : Jobs → Tubes → Option ℕ
unfolding soonest_loop soonest_round take_at
soonest_delayed_job js ts = soonest_loop js.at ts.at ts.tubes.items none

-- A tube that is paused at the time `now`.
abbrev pub is_paused : Tube → ℕ → Bool
is_paused t now = positive t.pause && slt now t.unpause_at

-- A pause that is over ends.
unfoldable pub wake : Tube → Tube
wake t = if positive t.pause then record t { pause = 0 } else t

-- one round of NextAwaitedJob on the tube, once its pause is over
awaited_round : (ℕ → Job) → Tube → Option ℕ → Option ℕ
awaited_round at t best =
    if ltb 0 (length t.waiting_conns.items) && ltb 0 (length t.ready)
    then elim (take_at t.ready 0) [
      | none ↦ best
      | some item ↦ elim best [
        | none ↦ some item.value
        | some j ↦ if job_pri_less at item.value j then some item.value else some j
      ]
    ]
    else best

-- the loop of NextAwaitedJob, which ends the pauses that are over
unfoldable pub awaited_loop : (ℕ → Job) → ℕ → List ℕ → (ℕ → Tube) → Option ℕ → Option ℕ × (ℕ → Tube)
unfolding awaited_round
awaited_loop at now [] tube best = (best, tube)
awaited_loop at now (t ∷ ts) tube best =
    let paused = is_paused (tube t) now in
    awaited_loop at now ts (if paused then tube else update tube t (wake (tube t)))
      (if paused then best else awaited_round at (wake (tube t)) best)

-- NextAwaitedJob
unfoldable pub next_awaited_job : Jobs → Tubes → ℕ → Option ℕ × Tubes
unfolding awaited_loop awaited_round wake take_at job_pri_less
next_awaited_job js ts now =
    let (j, at) = awaited_loop js.at now ts.tubes.items ts.at none in (j, record ts { at = at })
