-- ===== src/Net/Io/Tests.antt =====
-- Connections that read and write, on concrete inputs.
use gostalkd.Prelude.{ℕ, ◌+◌, ◌≡◌, refl, ◌++◌, some, none, codes, crlf, Yields, arith}
use gostalkd.Core.Job.{Job, job_free}
use gostalkd.Machine.{World, want_end_line, send_word, read_bytes, wrote}
use gostalkd.Machine.Actions.{◌>>◌, change_conn, change_jobs}
use gostalkd.Machine.Sample.{sample_world, sample_conn, sample_jobs, sample_job}
use gostalkd.Net.Reply.{reply_msg, msg_expected_crlf}
use gostalkd.Net.Commands.Put.{has_crlf}
use gostalkd.Net.Io.{read_end_line, read_data, write_word}
use gostalkd.Net.Io.EndLine.{Lost, read_end_line-Lost}
use gostalkd.Net.Io.Data.{read_data-refused}
use gostalkd.Net.Io.Send.{write_word-late, write_word-early}

-- A connection that waits for the end of a line.
abbrev waiting_world : World
waiting_world = record sample_world {
  conn = λ c. record sample_conn { state = want_end_line; cmd = codes "abc" };
}

read_end_line-Lost_example :
    Yields (λ out. Lost waiting_world 1 out.1) (read_end_line 1 waiting_world)
read_end_line-Lost_example =
    read_end_line-Lost waiting_world 1
      record { waits = refl; below = omega arith; uncounted = omega arith }

-- A connection that has read four bytes of a body of eight, and is to read the others.
abbrev data_world : World
data_world =
    let j : Job = sample_job 3 in
    let job : Job = record j { r = record (j.r) { body_size = 8 }; body = codes "abcd" } in
    record sample_world {
      jobs = record sample_jobs { at = λ a. job };
      conn = λ c. record sample_conn { in_job = some 3; in_job_read = 4 };
      outside = record (sample_world.outside) {
        receiving = λ n size. read_bytes (codes "ef" ++ crlf);
      };
    }

read_data-refused_example :
    read_data 1 data_world
    ≡ (change_conn 1 (λ x. record x { in_job_read = 8 })
          >> (change_conn 1 (λ x. record x { in_job = none; in_job_read = 0 })
              >> (change_jobs (λ js. job_free js (some 3)) >> reply_msg 1 msg_expected_crlf)))
        (record data_world { requests = 1 })
unfolding has_crlf
read_data-refused_example =
    read_data-refused data_world 1 3 (codes "ef" ++ crlf) refl (omega arith) (omega arith) refl refl
      refl

-- A connection with a reply of four bytes, of which three have been sent, or one.
abbrev sending_world : ℕ → World
sending_world sent = record sample_world {
  conn = λ c. record sample_conn {
    state = send_word;
    reply = codes "abcd";
    reply_len = 4;
    reply_sent = sent;
  };
  outside = record (sample_world.outside) { sending = λ n size. wrote 1 };
}

write_word-late_example : write_word 1 (sending_world 3) ≡ none
write_word-late_example =
    write_word-late (sending_world 3) 1
      record { whole = refl; short = omega arith; partly = omega arith } (omega arith)

write_word-early_example :
    Yields
      (λ out. ((out.1.conn 1).state ≡ send_word) × ((out.1.conn 1).reply_sent ≡ 1 + 1))
      (write_word 1 (sending_world 1))
write_word-early_example =
    write_word-early (sending_world 1) 1
      record { whole = refl; short = omega arith; partly = omega arith } 0 (omega arith) refl
      (omega arith)
