-- ===== src/Net/Queue/Buried.antt =====
-- Taking a job out of the buried jobs of its tube (net/prot.go: removeBuriedJob), after BuryJob put
-- it there.
use gostalkd.Prelude.{
  ℕ, ◌≡◌, ◌≢◌, refl, List, [], ◌∷◌, ◌++◌, none, some, Yields, yields, Yields-mono, sub64,
}
use gostalkd.Core.Job.{buried}
use gostalkd.Core.Links.Rings.{Ring, IsAlone}
use gostalkd.Core.Links.Remove.{list_remove-Ring, list_remove-alone}
use gostalkd.Core.Bury.{put_buried}
use gostalkd.Core.Bury.Lists.{put_buried-first, put_buried-lost}
use gostalkd.Machine.{World}
use gostalkd.Machine.Actions.{◌>>◌}
use gostalkd.Machine.Laws.{after}
use gostalkd.Net.Queue.{remove_buried_job}

module _ (w : World) (j : ℕ) (is : (w.jobs.at j).r.state ≡ buried) where
  -- removeBuriedJob of a buried job that stands in a list does not panic and returns the job; the
  -- job is in no list then, the others keep their order, and the count of buried jobs goes down.
  pub remove_buried_job-Ring :
      (t head : ℕ) (xs ys : List ℕ)
      → (w.jobs.at j).tube ≡ some t
      → Ring w.jobs.links head (xs ++ j ∷ ys)
      → Yields
          (λ out.
            (out.0 ≡ some j)
            × Ring out.1.jobs.links head (xs ++ ys)
            × IsAlone out.1.jobs.links j
            × (out.1.stat.buried_ct ≡ sub64 w.stat.buried_ct 1))
          (remove_buried_job (some j) w)
  unfolding remove_buried_job
  remove_buried_job-Ring t head xs ys in_tube r =
      let (found, ring, alone) = list_remove-Ring w.jobs.links head xs j ys r in
      rw (is, found, in_tube) (yields (refl, ring, alone, refl))

  -- removeBuriedJob of a buried job that stands in no list does not panic, returns nil and leaves
  -- the lists and the count of buried jobs as they are.
  remove_buried_job-alone :
      IsAlone w.jobs.links j
      → Yields
          (λ out.
            (out.0 ≡ none)
            × (out.1.jobs.links ≡ w.jobs.links)
            × (out.1.stat.buried_ct ≡ w.stat.buried_ct))
          (remove_buried_job (some j) w)
  unfolding remove_buried_job
  remove_buried_job-alone alone =
      rw (is, list_remove-alone w.jobs.links j alone) (yields (refl, refl, refl))

-- A job that is in no list is buried while no job of its tube is, and removed again: the second
-- step returns it, and the tube's list of buried jobs is empty as before.
pub put_buried-remove_buried_job :
    (w : World) (j t : ℕ)
    → (w.jobs.at j).tube ≡ some t
    → Ring w.jobs.links (w.tubes.at t).buried []
    → IsAlone w.jobs.links j
    → (w.tubes.at t).buried ≢ j
    → Yields
        (λ out. (out.0 ≡ some j) × Ring out.1.jobs.links (w.tubes.at t).buried [])
        ((put_buried j >> remove_buried_job (some j)) w)
put_buried-remove_buried_job w j t e r a away =
    after (put_buried j) (λ _. remove_buried_job (some j)) w (put_buried-first w j t e r a away)
      λ (_, w₁) (mark, ring).
        Yields-mono
          (remove_buried_job-Ring w₁ j mark.state t (w.tubes.at t).buried [] [] mark.tube ring)
          λ out h. (h.0, h.1)

-- A job that is in no list is buried while a job of its tube is, and is to be removed again: the
-- second step returns nil, although the job says that it is buried.
pub put_buried-remove_none :
    (w : World) (j t x : ℕ) (xs : List ℕ)
    → (w.jobs.at j).tube ≡ some t
    → Ring w.jobs.links (w.tubes.at t).buried (x ∷ xs)
    → IsAlone w.jobs.links j
    → Yields (λ out. out.0 ≡ none) ((put_buried j >> remove_buried_job (some j)) w)
put_buried-remove_none w j t x xs e r a =
    after (put_buried j) (λ _. remove_buried_job (some j)) w (put_buried-lost w j t x xs e r)
      λ (_, w₁) (mark, links).
        Yields-mono (remove_buried_job-alone w₁ j mark.state (rw links a)) λ out h. h.0
