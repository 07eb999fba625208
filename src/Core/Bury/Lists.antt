-- ===== src/Core/Bury/Lists.antt =====
-- What BuryJob does to the list of a tube's buried jobs.
use gostalkd.Prelude.{
  ℕ, ◌≡◌, refl, List, [], ◌∷◌, none, some, Yields, yields, Yields-mono, false, sym, ◌∙◌, arith, ◌≢◌,
}
use gostalkd.Core.Job.{buried}
use gostalkd.Core.Links.{Links, list_insert, list_empty}
use gostalkd.Core.Links.Rings.{Ring, IsAlone}
use gostalkd.Core.Links.Insert.{list_insert-Ring, list_insert-linked}
use gostalkd.Core.Bury.{put_buried}
use gostalkd.Machine.{World}

-- The job says that it is buried, that no connection has reserved it, and that it is in the tube.
pub record Marked (after : World) (j t : ℕ) : Type 0 where
  pub state : (after.jobs.at j).r.state ≡ buried
  pub reservoir : (after.jobs.at j).reservoir ≡ none
  pub tube : (after.jobs.at j).tube ≡ some t

put_buried-Marked :
    (w : World) (j t : ℕ)
    → (w.jobs.at j).tube ≡ some t
    → Yields
        (λ out.
          Marked out.1 j t × (out.1.jobs.links ≡ list_insert w.jobs.links j (w.tubes.at t).buried))
        (put_buried j w)
unfolding put_buried
put_buried-Marked w j t e = rw e (
    yields
      (record { state = ground arith; reservoir = ground arith; tube = ground (arith, e) }, refl))

Ring-linked :
    (l : Links) (head x : ℕ) (xs : List ℕ) → Ring l head (x ∷ xs) → list_empty l head ≡ false
unfolding list_empty
Ring-linked l head x xs r = ground (arith, r.chain.0, r.distinct.0.0)

rotate : (l : Links) (a b : ℕ) → Ring l a (b ∷ []) → Ring l b (a ∷ [])
rotate l a b r = record {
  chain = (r.chain.2.0, r.chain.2.1, (r.chain.0, r.chain.1));
  distinct = (((λ e. r.distinct.0.0 (sym e)), tt), (tt, tt));
}

-- Burying a job that is in no list while no job of its tube is buried: the job is marked as
-- buried, and it is the one job of its tube's list of buried jobs.
pub put_buried-first :
    (w : World) (j t : ℕ)
    → (w.jobs.at j).tube ≡ some t
    → Ring w.jobs.links (w.tubes.at t).buried []
    → IsAlone w.jobs.links j
    → (w.tubes.at t).buried ≢ j
    → Yields
        (λ out. Marked out.1 j t × Ring out.1.jobs.links (w.tubes.at t).buried (j ∷ []))
        (put_buried j w)
put_buried-first w j t e r a away =
    let head = (w.tubes.at t).buried in
    Yields-mono (put_buried-Marked w j t e) λ out h. (
      h.0,
      rw h.1 (
          rotate (list_insert w.jobs.links j head) j head (
            list_insert-Ring w.jobs.links j [] head
              (record { chain = (a.no_next, a.no_prev); distinct = (tt, tt) })
              (record { no_next = r.chain.0; no_prev = r.chain.1 }) ((λ d. away (sym d)), tt))),
    )

-- Burying a job while a job of its tube is buried: the job is marked as buried, but all
-- lists of jobs stay as they are.
pub put_buried-lost :
    (w : World) (j t x : ℕ) (xs : List ℕ)
    → (w.jobs.at j).tube ≡ some t
    → Ring w.jobs.links (w.tubes.at t).buried (x ∷ xs)
    → Yields (λ out. Marked out.1 j t × (out.1.jobs.links ≡ w.jobs.links)) (put_buried j w)
put_buried-lost w j t x xs e r =
    let head = (w.tubes.at t).buried in
    Yields-mono (put_buried-Marked w j t e) λ out h.
      (h.0, h.1 ∙ list_insert-linked w.jobs.links j head (Ring-linked w.jobs.links head x xs r))
