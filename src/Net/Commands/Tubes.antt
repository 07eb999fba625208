-- ===== src/Net/Commands/Tubes.antt =====
-- net/prot.go: the handlers that name a tube: use, watch, ignore, pause-tube and list-tube-used.
pub mod Counts
use gostalkd.Prelude.{
  ℕ, ◌+◌, Bool, true, false, not, ◌&&◌, List, [], ◌∷◌, ◌++◌, Option, none, some, Bytes, codes, crlf,
  ltb, ◌==◌, if◌then◌else◌, add64, sub64, length, drop,
}
use gostalkd.Structure.Ms
use gostalkd.Utils.Str.{parsed, fmt_error, panics, read_duration}
use gostalkd.Utils.Str.Decimal.{decimal}
use gostalkd.Utils.Tube.{read_tube_name, is_valid_tube}
use gostalkd.Core.Tube.{Tube, Tubes, tube_find, tube_find_or_make, find_loop}
use gostalkd.Machine.{
  World, send_word, op_use, op_watch, op_ignore, op_pause_tube, op_list_tube_used,
}
use gostalkd.Machine.Actions.{
  on_option, M, ◌>>=◌, ◌>>◌, return, panic, read, modify, when, deref, now, get_tube, change_tube,
  get_conn, change_conn, count_op,
}
use gostalkd.Net.Conn.{address_eq}
use gostalkd.Net.Reply.{reply_msg, reply_line, msg_bad_format, msg_not_found, msg_not_ignored}
use gostalkd.Net.Watch.{watch_append, watch_remove}
use gostalkd.Net.Commands.{on_parsed, cmd_from, with_exact}

-- utils.ReadTubeName(c.Cmd[idx:], &idx); on an error the handler replies BAD_FORMAT and returns
unfoldable pub with_name : ℕ → ℕ → (Bytes → ℕ → M (Unit {0})) → M (Unit {0})
unfolding read_tube_name on_parsed
with_name c idx k = do buf ← cmd_from c idx; on_parsed c (read_tube_name buf idx) k

-- ReadTubeName, and the test by IsValidTube of the handlers of use, watch and ignore
unfoldable pub with_valid_name : ℕ → ℕ → (Bytes → M (Unit {0})) → M (Unit {0})
unfolding with_name is_valid_tube reply_msg
with_valid_name c idx k =
    with_name c idx
      λ name idx'. if not (is_valid_tube name) then reply_msg c msg_bad_format else k name

-- core.TubeFindOrMake; the clock is read if a tube is made, for the head of its buried jobs
unfoldable pub find_or_make : Bytes → M ℕ
unfolding tube_find_or_make tube_find
find_or_make name = do
  w ← read
  let (t, js, ts) = tube_find_or_make w.jobs w.tubes (w.outside.clock w.readings) name
  modify (λ v. record v {
    jobs = js;
    tubes = ts;
    readings = elim (tube_find w.tubes name) [ some _ ↦ v.readings | none ↦ v.readings + 1 ];
  })
  return t

-- what dispatchOpUse does once it has the tube
unfoldable pub use_tube : ℕ → ℕ → M (Unit {0})
use_tube c t = do
  x ← get_conn c
  old ← deref x.use_tube
  change_tube old (λ y. record y { using_ct = sub64 y.using_ct 1 })
  change_conn c (λ k. record k { use_tube = some t })
  change_tube t (λ y. record y { using_ct = add64 y.using_ct 1 })

-- dispatchOpUse; "use" has 3 bytes
unfoldable pub dispatch_op_use : ℕ → M (Unit {0})
unfolding with_valid_name find_or_make use_tube reply_line
dispatch_op_use c = with_valid_name c 3 λ name. do
  count_op op_use
  t ← find_or_make name
  use_tube c t
  tube ← get_tube t
  reply_line c send_word (codes "USING " ++ (tube.name ++ crlf))

-- the reply of the handlers of watch and ignore
unfoldable pub reply_watching : ℕ → M (Unit {0})
unfolding reply_line
reply_watching c = do
  x ← get_conn c
  reply_line c send_word (codes "WATCHING " ++ (decimal (length x.watch.items) ++ crlf))

-- what dispatchOpWatch does once it has the tube
unfoldable pub watch_tube : ℕ → ℕ → M (Unit {0})
unfolding watch_append
watch_tube c t = do x ← get_conn c; when (not (Ms.contains x.watch.items t)) (watch_append c t)

-- dispatchOpWatch; "watch" has 5 bytes
unfoldable pub dispatch_op_watch : ℕ → M (Unit {0})
unfolding with_valid_name find_or_make watch_tube reply_watching
dispatch_op_watch c =
    with_valid_name c 5
      λ name. do count_op op_watch; t ← find_or_make name; watch_tube c t; reply_watching c

-- the part of dispatchOpIgnore between the two replies: whether the tube may be ignored
unfoldable pub ignore_tube : ℕ → Bytes → M Bool
unfolding find_loop watch_remove
ignore_tube c name = do
  x ← get_conn c
  w ← read
  on_option (find_loop w.tubes.at x.watch.items name) (return true) (λ t.
      if ltb (length x.watch.items) 2 then return false else (do watch_remove c t; return true))

-- dispatchOpIgnore; "ignore" has 6 bytes
unfoldable pub dispatch_op_ignore : ℕ → M (Unit {0})
unfolding with_valid_name ignore_tube reply_watching reply_msg
dispatch_op_ignore c = with_valid_name c 6 λ name. do
  count_op op_ignore
  ignored ← ignore_tube c name
  if not ignored then reply_msg c msg_not_ignored else reply_watching c

-- what dispatchOpPauseTube does to the tube
unfoldable pub pause_tube : ℕ → ℕ → M (Unit {0})
pause_tube t delay = do
  let d = if delay == 0 then 1 else delay
  u ← now
  change_tube t (λ x. record x {
    unpause_at = add64 u d;
    pause = d;
    stat = record (x.stat) { pause_ct = add64 x.stat.pause_ct 1 };
  })

-- dispatchOpPauseTube; "pause-tube" has 10 bytes
unfoldable pub dispatch_op_pause_tube : ℕ → M (Unit {0})
unfolding with_name on_parsed read_duration is_valid_tube tube_find pause_tube reply_msg reply_line
dispatch_op_pause_tube c = with_name c 10 λ name i₁. do
  buf ← cmd_from c i₁
  on_parsed c (read_duration buf i₁) λ delay i₂. do
    count_op op_pause_tube
    w ← read
    if not (is_valid_tube name)
        then reply_msg c msg_bad_format
        else on_option (tube_find w.tubes name) (reply_msg c msg_not_found)
            λ t. do pause_tube t delay; reply_line c send_word (codes "PAUSED" ++ crlf)

-- dispatchOpListTubeUsed; "list-tube-used" has 14 bytes
unfoldable pub dispatch_op_list_tube_used : ℕ → M (Unit {0})
unfolding with_exact reply_line
dispatch_op_list_tube_used c = with_exact c 14 (do
  count_op op_list_tube_used
  x ← get_conn c
  t ← deref x.use_tube
  tube ← get_tube t
  reply_line c send_word (codes "USING " ++ (tube.name ++ crlf)))
