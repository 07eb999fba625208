-- ===== src/Net/Io/Data.antt =====
-- A body that arrives behind its command (net/serv.go: connProcessIO, the case StateWantData).
use gostalkd.Prelude.{
  ==_self, ℕ, ◌+◌, ◌≤◌, ◌<◌, ◌≡◌, refl, ◌∙◌, true, false, Bytes, ◌==◌, add64, sub64, slt, half64,
  length, length-take, take, some, none, update, arith,
}
use gostalkd.Core.Job.{job_free}
use gostalkd.Machine.{World, read_bytes}
use gostalkd.Machine.Actions.{M, ◌>>◌, change_conn, change_jobs}
use gostalkd.Net.Reply.{reply_msg, msg_expected_crlf}
use gostalkd.Net.Commands.Put.{has_crlf, maybe_enqueue_in_coming_job, enqueue_in_coming_job}
use gostalkd.Net.Io.{read_data, sock_read}

-- how a job with a complete body is refused
abbrev refuse : ℕ → ℕ → M (Unit {0})
refuse c j =
    change_conn c (λ x. record x { in_job = none; in_job_read = 0 })
    >> (change_jobs (λ js. job_free js (some j)) >> reply_msg c msg_expected_crlf)

module _ (w : World) (c j : ℕ) (job : (w.conn c).in_job ≡ some j) where
  maybe_enqueue_in_coming_job-full :
      (w.conn c).in_job_read ≡ (w.jobs.at j).r.body_size
      → maybe_enqueue_in_coming_job c w ≡ enqueue_in_coming_job c w
  unfolding maybe_enqueue_in_coming_job
  maybe_enqueue_in_coming_job-full full =
      let complete : ((w.conn c).in_job_read == (w.jobs.at j).r.body_size) ≡ true = ground arith in
      simp (job, complete) refl

  enqueue_in_coming_job-refuse :
      has_crlf (w.jobs.at j).body ≡ false → enqueue_in_coming_job c w ≡ refuse c j w
  unfolding enqueue_in_coming_job
  enqueue_in_coming_job-refuse no_end = simp (job, no_end) refl

module _ (w : World) (c j : ℕ) (bs : Bytes) (job : (w.conn c).in_job ≡ some j)
    (within : (w.conn c).in_job_read ≤ (w.jobs.at j).r.body_size)
    (fits : (w.jobs.at j).r.body_size < half64)
    (received : w.outside.receiving w.requests
        (sub64 (w.jobs.at j).r.body_size (w.conn c).in_job_read)
      ≡ read_bytes bs) where
  w' : World
  w' =
      let x = w.conn c in
      record w {
        requests = w.requests + 1;
        conn = update w.conn c (record x { in_job_read = (w.jobs.at j).r.body_size });
      }

  read_data-last :
      length bs ≡ sub64 (w.jobs.at j).r.body_size (w.conn c).in_job_read
      → read_data c w ≡ maybe_enqueue_in_coming_job c w'
  unfolding read_data sock_read w'
  read_data-last whole =
      let size = (w.jobs.at j).r.body_size in
      let x = w.conn c in
      let missing = sub64 size x.in_job_read in
      let positive : slt missing 0 ≡ false = ground arith in
      let len = length-take missing bs in
      let full : add64 x.in_job_read (length (take missing bs)) ≡ size = omega (arith, len) in
      simp (job, positive, received, full) refl

  -- If the rest of a body arrives, and the part of it that came with the command has no CR LF,
  -- connProcessIO frees the job and replies EXPECTED_CRLF, whatever the rest is.
  pub read_data-refused :
      length bs ≡ sub64 (w.jobs.at j).r.body_size (w.conn c).in_job_read
      → has_crlf (w.jobs.at j).body ≡ false
      → read_data c w
        ≡ (change_conn c (λ x. record x { in_job_read = (w.jobs.at j).r.body_size }) >> refuse c j)
            (record w { requests = w.requests + 1 })
  unfolding w'
  read_data-refused whole no_end =
      let job' : (w'.conn c).in_job ≡ some j = rw (==_self c) job in
      let full : (w'.conn c).in_job_read ≡ (w.jobs.at j).r.body_size = rw (==_self c) in
      read_data-last whole
      ∙ maybe_enqueue_in_coming_job-full w' c j job' full
      ∙ enqueue_in_coming_job-refuse w' c j job' no_end
