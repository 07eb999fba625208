-- ===== src/Net/Start.antt =====
-- net/serv.go: NewServer, Start and SrvAcquireWal; model/srv.go: the options of a server. What the
-- system answers, as listening, accepting and locking end, are arguments.
pub mod Linux
mod Tests
use gostalkd.Prelude.{
  ℕ, ◌+◌, Bool, true, false, not, ◌&&◌, List, [], ◌∷◌, Option, none, some, Bytes, codes, drop,
  length, ◌==◌, if◌then◌else◌, positive,
}
use gostalkd.Machine.Actions.{
  M, ◌>>=◌, ◌>>◌, return, done, panic, when, get_wal, change_links, on_option,
}
use gostalkd.Core.Links.{list_reset}
use gostalkd.Core.Wal.Scan.{Dir, has_prefix}
use gostalkd.Core.Wal.Start.{wal_init}
use gostalkd.Net.Serve.{Accepted, h_conn, h_accept}
use gostalkd.Net.Sockets.{Pointed, null, stray, server, client, Next}
use gostalkd.Net.Tick.{prot_tick, prot_replay}

-- ServerOptions
pub record ServerOptions : Type 0 where
  pub port : ℕ
  pub addr : Bytes
  pub user : Bytes

-- ServerOption
abbrev pub ServerOption : Type 0
ServerOption = ServerOptions → ServerOptions

-- WithPort, WithAddr and WithUser
abbrev pub with_port : ℕ → ServerOption
with_port port o = record o { port = port }

abbrev pub with_addr : Bytes → ServerOption
with_addr addr o = record o { addr = addr }

abbrev pub with_user : Bytes → ServerOption
with_user user o = record o { user = user }

-- the options in turn, from the zero value on
abbrev pub apply_options : List ServerOption → ServerOptions → ServerOptions
apply_options [] o = o
apply_options (opt ∷ opts) o = apply_options opts (opt o)

-- what a server listens at
pub data Listener : Type 0 where
  unix : Bytes → Listener
  tcp : Bytes → ℕ → Listener

abbrev pub unix_prefix : Bytes
unix_prefix = codes "unix:"

-- makeServerListener, by the address that it resolves and listens at; `listen` tells whether both
-- went well
unfoldable pub make_server_listener : (Listener → Bool) → Bytes → ℕ → Option Listener
make_server_listener listen addr port =
    let l = if has_prefix unix_prefix addr then unix (drop 5 addr) else tcp addr port in
    if listen l then some l else none

-- what NewServer returns: an error, neither a server nor an error, or a server
pub data NewServer : Type 0 where
  failed neither : NewServer
  made : ServerOptions → Listener → NewServer

-- NewServer; `opened` tells whether the listener has a file, and `wanted` whether sockWant went well
unfoldable pub new_server : List ServerOption → (Listener → Bool) → Bool → Bool → NewServer
unfolding make_server_listener
new_server options listen opened wanted =
    let opts = apply_options options (record { port = 0; addr = []; user = [] }) in
    on_option (make_server_listener listen opts.addr opts.port) failed
      (λ l. if not opened then failed else if not wanted then neither else made opts l)

-- sock.H(sock.X, rw)
unfoldable pub handle : Accepted → Pointed → ℕ → M (Unit {0})
unfolding h_conn h_accept
handle a null rw = panic
handle a stray rw = panic
handle a server rw = h_accept a
handle a (client c) rw = h_conn c rw

abbrev pub is_null : Pointed → Bool
is_null null = true
is_null _ = false

-- a round of Start, with the pointer of the round before
unfoldable pub start_round : (ℕ → Pointed → Next) → Accepted → Pointed → M Pointed
unfolding prot_tick handle
start_round sock_next a s = do
  period ← prot_tick
  let n = sock_next period s
  when (not n.failed && (positive n.rw && not (is_null n.socket))) (handle a n.socket n.rw)
  return n.socket

-- the first rounds of Start: what sockNext does in each, and how accepting a connection would end
unfoldable pub start_loop : List ((ℕ → Pointed → Next) × Accepted) → Pointed → M (Unit {0})
unfolding start_round
start_loop [] s = done
start_loop ((sock_next, a) ∷ rounds) s = do s' ← start_round sock_next a s; start_loop rounds s'

-- SrvAcquireWal, with the address of `list`; `locked` tells whether WalDirLock went well
unfoldable pub srv_acquire_wal :
    Bool → (Bytes → Option ℕ) → (ℕ → Option Bytes) → Dir → ℕ → M (Unit {0})
unfolding list_reset wal_init prot_replay
srv_acquire_wal locked parse_int content dir list = do
  x ← get_wal
  when x.in_use (do
    if not locked then panic else done
    change_links (λ links. list_reset links list)
    wal_init parse_int content dir list
    replayed ← prot_replay list
    if not replayed then panic else done)
