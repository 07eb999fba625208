-- ===== src/Core/Links.antt =====
-- The doubly linked job lists of core/job.go. The fields Prev and Next of all jobs are two
-- functions on the addresses of jobs; a list is the ring through its head, itself a job.
pub mod Rings
pub mod Insert
pub mod Remove
mod Tests
use gostalkd.Prelude.{
  ℕ, ◌≡◌, Bool, true, false, not, ◌&&◌, Option, none, some, ◌==◌, if◌then◌else◌, update,
}

pub record Links : Type 0 where
  pub prev : ℕ → ℕ
  pub next : ℕ → ℕ

-- ListReset and JobListRest
unfoldable pub list_reset : Links → ℕ → Links
list_reset l j = record { prev = update l.prev j j; next = update l.next j j }

-- JobListEmpty
unfoldable pub list_empty : Links → ℕ → Bool
list_empty l j = (l.next j == j) && (l.prev j == j)

-- JobListInsert
unfoldable pub list_insert : Links → ℕ → ℕ → Links
unfolding list_empty
list_insert l head j =
    let l₁ : Links = record l { prev = update l.prev j (l.prev head) } in
    let l₂ : Links = record l₁ { next = update l₁.next j head } in
    let l₃ : Links = record l₂ { next = update l₂.next (l₂.prev head) j } in
    let l₄ : Links = record l₃ { prev = update l₃.prev head j } in
    if not (list_empty l j) then l else l₄

-- JobListRemove; the result says whether the job was in a list
unfoldable pub list_remove : Links → Option ℕ → Option ℕ × Links
unfolding list_empty
list_remove l none = (none, l)
list_remove l (some j) =
    let l₁ : Links = record l { prev = update l.prev (l.next j) (l.prev j) } in
    let l₂ : Links = record l₁ { next = update l₁.next (l₁.prev j) (l₁.next j) } in
    let l₃ : Links = record l₂ { prev = update l₂.prev j j } in
    let l₄ : Links = record l₃ { next = update l₃.next j j } in
    if list_empty l j then (none, l) else (some j, l₄)
