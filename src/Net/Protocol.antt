-- ===== src/Net/Protocol.antt =====
-- net/prot.go: whichCmd, with constant.Cmd2OpMap; net/serv.go: scanLineEnd and commandDataReady.
pub mod Lines
mod Names
mod Tests
use gostalkd.Prelude.{
  ℕ, suc, ◌+◌, ◌-◌, Bool, true, false, not, ◌&&◌, ◌||◌, List, [], ◌∷◌, Option, none, some, Bytes,
  codes, cr, lf, space, index_byte, span_of, ltb, leb, ◌==◌, if◌then◌else◌, length, take, get_elem?,
}
use gostalkd.Core.Tube.{same_name}
use gostalkd.Utils.Str.{str_len}
use gostalkd.Machine.{
  ConnState, want_command, Op, op_unknown, op_put, op_peek_job, op_peek_ready, op_peek_delayed,
  op_peek_buried, op_reserve, op_reserve_timeout, op_reserve_job, op_delete, op_release, op_bury,
  op_kick, op_kick_job, op_touch, op_stats, op_stats_job, op_use, op_watch, op_ignore,
  op_list_tubes, op_list_tube_used, op_list_tubes_watched, op_stats_tube, op_quit, op_pause_tube,
}

-- Cmd2OpMap
abbrev pub cmd_to_op : List (Bytes × Op)
cmd_to_op =
    (codes "put", op_put)
    ∷ (codes "peek", op_peek_job)
    ∷ (codes "peek-ready", op_peek_ready)
    ∷ (codes "peek-delayed", op_peek_delayed)
    ∷ (codes "peek-buried", op_peek_buried)
    ∷ (codes "reserve", op_reserve)
    ∷ (codes "reserve-with-timeout", op_reserve_timeout)
    ∷ (codes "reserve-job", op_reserve_job)
    ∷ (codes "delete", op_delete)
    ∷ (codes "release", op_release)
    ∷ (codes "bury", op_bury)
    ∷ (codes "kick", op_kick)
    ∷ (codes "kick-job", op_kick_job)
    ∷ (codes "touch", op_touch)
    ∷ (codes "stats", op_stats)
    ∷ (codes "stats-job", op_stats_job)
    ∷ (codes "use", op_use)
    ∷ (codes "watch", op_watch)
    ∷ (codes "ignore", op_ignore)
    ∷ (codes "list-tubes", op_list_tubes)
    ∷ (codes "list-tube-used", op_list_tube_used)
    ∷ (codes "list-tubes-watched", op_list_tubes_watched)
    ∷ (codes "stats-tube", op_stats_tube)
    ∷ (codes "quit", op_quit)
    ∷ (codes "pause-tube", op_pause_tube)
    ∷ []

-- the lookup in a map of string keys, with OpUnknown for a missing key
abbrev pub op_of : List (Bytes × Op) → Bytes → Op
op_of [] name = op_unknown
op_of ((key, op) ∷ ops) name = let rest = op_of ops name in if same_name key name then op else rest

abbrev pub in_word : ℕ → Bool
in_word c = not (c == space)

-- bytes.Split(s, " ")[0]
abbrev pub first_word : Bytes → Bytes
first_word s = (span_of in_word s).0

-- whichCmd
unfoldable pub which_cmd : Bytes → Op
unfolding str_len
which_cmd s = op_of cmd_to_op (first_word (take (str_len s) s))

-- the byte after the first CR
abbrev pub ends_at : Bytes → ℕ → ℕ
ends_at s idx = elim (get_elem? s (suc idx)) [ none ↦ 0 | some c ↦ if c == lf then idx + 2 else 0 ]

-- scanLineEnd: the length of the first line with its CR LF, or 0
unfoldable pub scan_line_end : Bytes → ℕ → ℕ
scan_line_end s size =
    if ltb (length s) 2 || not (length s == size) then 0 else elim (index_byte cr s) [
      | none ↦ 0
      | some idx ↦ if leb (length s - 1) idx then 0 else ends_at s idx
    ]
