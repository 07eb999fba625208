-- ===== src/Net/Sockets/Linux.antt =====
-- net/linux.go: sockWant and sockNext over epoll. The numbers of the system's events are parameters.
use Prim.Native.Nat.{bit_and, bit_or}
use gostalkd.Prelude.{
  ℕ, ◌%◌, Bool, true, false, not, ◌&&◌, ◌||◌, Option, none, some, leb, ◌==◌, if◌then◌else◌,
  positive,
}
use gostalkd.Net.Conn.{minus_one}
use gostalkd.Net.Sockets.{Next, Pointed, stray}

pub data Ctl : Type 0 where
  ctl_add ctl_del ctl_mod : Ctl

-- what EpollWait returns: its number, and whether with an error
pub record Waited : Type 0 where
  pub r : ℕ
  pub failed : Bool

module _ (epoll_in epoll_out epoll_rdhup epoll_pri epoll_hup : ℕ) where
  -- the events that sockWant asks for
  abbrev pub events_of : ℕ → ℕ
  events_of rw =
      let asked = if rw == b'r' then epoll_in else if rw == b'w' then epoll_out else 0 in
      bit_or asked (bit_or epoll_rdhup epoll_pri)

  -- sockWant, of a socket that is added or not: the new mark, and what EpollCtl is asked for
  unfoldable pub linux_sock_want : Bool → ℕ → Bool × Option (Ctl × ℕ)
  linux_sock_want added rw =
      if not added && leb rw 0
      then (added, none)
      else if not added
      then (true, some (ctl_add, events_of rw))
      else if leb rw 0
      then (added, some (ctl_del, events_of rw))
      else (added, some (ctl_mod, events_of rw))

  -- how sockNext names the events in `ev`
  abbrev pub named : ℕ → ℕ
  named events =
      if positive (bit_and events (bit_or epoll_hup epoll_rdhup))
      then b'h'
      else if positive (bit_and events epoll_in)
      then b'r'
      else if positive (bit_and events epoll_out)
      then b'w'
      else 0

  -- sockNext; EpollWait fills the copy of `ev` that its argument holds, so that the events of `ev`
  -- are still 0 and the pointer is set to a field of `ev`
  unfoldable pub linux_sock_next : Pointed → Waited → Next
  linux_sock_next s w =
      if (w.r == minus_one) || w.failed
      then record { socket = s; rw = w.r % 256; failed = w.failed }
      else if positive w.r
      then record { socket = stray; rw = named 0; failed = false }
      else record { socket = s; rw = 0; failed = false }
