-- ===== src/Net/Commands/Tests.antt =====
-- Commands of a connection, on concrete inputs.
use gostalkd.Prelude.{
  ◌⊎◌, true, false, ◌≡◌, refl, inl, inr, Bool-cases, [], ◌∷◌, ◌++◌, some, codes, crlf, lf, ◌==◌,
  if◌then◌else◌, Yields, arith, slt, length,
}
use gostalkd.Core.Job.{Job}
use gostalkd.Machine.{World, op_put}
use gostalkd.Machine.Actions.{◌>>◌, count_op}
use gostalkd.Machine.Sample.{
  sample_world, sample_conn, sample_jobs, sample_job, sample_tubes, sample_tube,
}
use gostalkd.Net.Protocol.{which_cmd, scan_line_end}
use gostalkd.Net.Conn.{address_eq}
use gostalkd.Net.Reply.{msg_job_too_big}
use gostalkd.Net.Watch.{watch_clear}
use gostalkd.Net.Watch.Counts.{IsWatched, watch_clear-IsWatched}
use gostalkd.Net.Commands.Dispatch.{dispatch_cmd, dispatch_op}
use gostalkd.Net.Commands.Dispatch.Guard.{dispatch_cmd-dispatch_op}
use gostalkd.Net.Commands.Put.{fill_extra_data, maybe_enqueue_in_coming_job, dispatch_op_put, skip}
use gostalkd.Net.Commands.Put.Body.{Filled, fill_extra_data-Filled}
use gostalkd.Net.Commands.Put.Parse.{put_text}
use gostalkd.Net.Commands.Put.Made.{PutJob, dispatch_op_put-PutJob}
use gostalkd.Net.Commands.Tubes.{use_tube}
use gostalkd.Net.Commands.Tubes.Counts.{IsUsed, use_tube-IsUsed}
use gostalkd.Net.Commands.Lists.{do_list_tubes, send_body}
use gostalkd.Net.Commands.Lists.Size.{tubes_text, do_list_tubes-send_body}

-- A connection that has read a line, and some bytes behind it.
abbrev quit_world : World
quit_world = record sample_world {
  conn = λ c. record sample_conn {
    cmd = codes "quit" ++ crlf ++ codes "ab";
    cmd_len = 6;
    cmd_read = 8;
  };
}

dispatch_cmd-dispatch_op_example :
    dispatch_cmd 1 quit_world ≡ dispatch_op 1 (which_cmd (quit_world.conn 1).cmd) quit_world
unfolding scan_line_end
dispatch_cmd-dispatch_op_example = dispatch_cmd-dispatch_op quit_world 1 5 refl refl (omega arith)

-- The same for a job of three bytes.
abbrev body_world : World
body_world =
    let j : Job = sample_job 3 in
    record sample_world {
      jobs = record sample_jobs { at = λ a. record j { r = record (j.r) { body_size = 3 } } };
      conn = λ c. record sample_conn {
        in_job = some 3;
        cmd = codes "put" ++ crlf ++ codes "hello";
        cmd_len = 5;
        cmd_read = 10;
      };
    }

fill_extra_data-Filled_example :
    Yields (λ out. Filled body_world 1 3 out.1) (fill_extra_data 1 body_world)
fill_extra_data-Filled_example =
    fill_extra_data-Filled body_world 1 3 refl (omega arith) (omega arith) refl (omega arith)
      (omega arith)

abbrev put_world : World
put_world = record sample_world {
  conn = λ c. record sample_conn { cmd = put_text 7 0 60 5 (lf ∷ codes "hello") };
}

dispatch_op_put-PutJob_example :
    ((slt 65_535 5 ≡ true)
      × (dispatch_op_put 1 put_world ≡ (count_op op_put >> skip 1 7 msg_job_too_big) put_world))
    ⊎ ((slt 65_535 5 ≡ false)
        × ((after : World) × (dispatch_op_put 1 put_world
              ≡ (fill_extra_data 1 >> maybe_enqueue_in_coming_job 1) after)
            × PutJob put_world 1 7 0 60 5 after))
dispatch_op_put-PutJob_example =
    dispatch_op_put-PutJob put_world 1 7 0 60 5 (lf ∷ codes "hello") refl (omega arith)
      (omega arith) (omega arith) (omega arith)

-- Two connections that watch and use the tube at the address 0.
abbrev two_world : World
two_world = record sample_world {
  fresh_conn = 2;
  tubes = record sample_tubes {
    at = λ t. record sample_tube {
      watching_ct = if t == 0 then 2 else 0;
      using_ct = if 0 == t then 2 else 0;
    };
  };
}

two_world-IsWatched : IsWatched two_world
two_world-IsWatched t = elim (Bool-cases (t == 0)) [ inl h ↦ rw h | inr h ↦ rw h ]

two_world-IsUsed : IsUsed two_world
two_world-IsUsed t = elim (Bool-cases (0 == t)) [ inl h ↦ rw h | inr h ↦ rw h ]

watch_clear-IsWatched_example : Yields (λ out. IsWatched out.1) (watch_clear 1 two_world)
watch_clear-IsWatched_example = watch_clear-IsWatched two_world 1 (omega arith) two_world-IsWatched

use_tube-IsUsed_example :
    Yields (λ out. ((out.1.conn 1).use_tube ≡ some 4) × IsUsed out.1) (use_tube 1 4 two_world)
use_tube-IsUsed_example = use_tube-IsUsed two_world 1 4 0 (omega arith) refl two_world-IsUsed

do_list_tubes-send_body_example :
    do_list_tubes 1 (0 ∷ []) sample_world
    ≡ send_body 1
        (length (tubes_text sample_world.tubes.at (0 ∷ [])))
        (tubes_text sample_world.tubes.at (0 ∷ []))
        sample_world
do_list_tubes-send_body_example = do_list_tubes-send_body sample_world 1 (0 ∷ [])
