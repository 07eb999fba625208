-- ===== src/Net/Sockets/Darwin.antt =====
-- net/darwin.go: sockWant and sockNext over kqueue. The numbers of the system's filters and flags are
-- parameters.
pub mod Named
mod Tests
use gostalkd.Prelude.{
  ℕ, ◌^◌, ◌+◌, ◌%◌, Bool, true, false, List, [], ◌∷◌, ◌++◌, ◌||◌, Option, none, some, ◌==◌,
  if◌then◌else◌, positive, slt,
}
use gostalkd.Net.Conn.{minus_one}
use gostalkd.Net.Sockets.{Next, Pointed}

-- what of a model.Socket sockWant uses
pub record Sock : Type 0 where
  pub added : Bool
  pub added_filter : ℕ

-- a change that sockWant asks Kevent for, of the socket's file
pub data Change : Type 0 where
  delete : ℕ → Change
  -- a filter to add, with the flags of the filter and its data
  add : ℕ → ℕ → ℕ → Change

-- an event that Kevent delivers: its filter, and whether the end of the file is marked
pub record Event : Type 0 where
  pub filter : ℕ
  pub eof : Bool
  pub udata : Pointed

-- what Kevent returns: its number, whether with an error, and the event
pub record Polled : Type 0 where
  pub r : ℕ
  pub failed : Bool
  pub event : Event

-- Infinity
abbrev pub infinity : ℕ
infinity = 2 ^ 30

module _ (evfilt_read evfilt_write note_lowat : ℕ) where
  -- the filter that a byte asks for
  abbrev pub filter_of : ℕ → ℕ
  filter_of rw =
      if rw == b'r' then evfilt_read else if rw == b'w' then evfilt_write else evfilt_read

  -- the change that adds it
  abbrev pub adding : ℕ → Change
  adding rw =
      if rw == b'r'
      then add (filter_of rw) 0 0
      else if rw == b'w'
      then add (filter_of rw) 0 0
      else add (filter_of rw) note_lowat infinity

  -- sockWant: the socket afterwards, and the changes that Kevent is asked for
  unfoldable pub darwin_sock_want : Sock → ℕ → Sock × List Change
  darwin_sock_want s rw =
      let before = if s.added then delete s.added_filter ∷ [] else [] in
      if positive rw
      then (record { added = true; added_filter = filter_of rw }, before ++ (adding rw ∷ []))
      else (s, before)

  -- sockNext
  unfoldable pub darwin_sock_next : Pointed → Polled → Next
  darwin_sock_next s p =
      if (p.r == minus_one) || p.failed
      then record { socket = s; rw = p.r % 256; failed = p.failed }
      else if positive p.r
      then record {
        socket = p.event.udata;
        rw =
            if p.event.eof
            then b'h'
            else if p.event.filter == evfilt_read
            then b'r'
            else if p.event.filter == evfilt_write
            then b'w'
            else 0;
        failed = false;
      }
      else record { socket = s; rw = 0; failed = false }
