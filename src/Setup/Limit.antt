-- ===== src/Setup/Limit.antt =====
-- The limit of a job's size that OptParse (utils/options.go) sets.
use gostalkd.Prelude.{
  ℕ, ◌≡◌, refl, true, false, Bool-cases, inl, inr, not, ◌⊎◌, ◌&&◌, none, some, slt, Bool, ◌*◌, ◌%◌,
  mod64, if◌then◌else◌,
}
use gostalkd.Machine.{World}
use gostalkd.Machine.Actions.{◌>>◌, return, panic, modify, when, change_wal}
use gostalkd.Machine.Frame.{Ends, stops, ends}
use gostalkd.Machine.Within.{Ends-bind}
use gostalkd.Setup.{Known, Flags, job_data_size_limit_max, is_empty, set_options, opt_parse}

capped :
    (n : ℕ)
    → slt job_data_size_limit_max
        (if slt job_data_size_limit_max n then job_data_size_limit_max else n)
      ≡ false
capped n = elim (Bool-cases (slt job_data_size_limit_max n)) [
  | inl e ↦ rw e refl
  | inr e ↦ rw (e, e) refl
]

-- what is set, by the outcome of the tests
options_set :
    (f : Flags) (big never refused given : Bool) (w : World)
    → Ends
        (λ out.
          (out.1.max_job_size ≡ (if big then job_data_size_limit_max else f.max_job_size))
          × (out.1.wal.in_use ≡ (if given then true else w.wal.in_use)))
        ((do
          modify (λ w. record w { max_job_size = f.max_job_size })
          when big (modify (λ w. record w { max_job_size = job_data_size_limit_max }))
          change_wal (λ x. record x {
            file_size = f.each_write_ahead_log_size;
            sync_rate = f.fsync_ms * 1_000_000 % mod64;
            want_sync = true;
          })
          when never (change_wal (λ x. record x { want_sync = false }))
          when refused panic
          when given (change_wal (λ x. record x { in_use = true }))
          return f.bing_log_dir)
          w)
options_set f true true true given w = stops
options_set f true false true given w = stops
options_set f false true true given w = stops
options_set f false false true given w = stops
options_set f true true false true w = ends (refl, refl)
options_set f true true false false w = ends (refl, refl)
options_set f true false false true w = ends (refl, refl)
options_set f true false false false w = ends (refl, refl)
options_set f false true false true w = ends (refl, refl)
options_set f false true false false w = ends (refl, refl)
options_set f false false false true w = ends (refl, refl)
options_set f false false false false w = ends (refl, refl)

-- OptParse exits with the memory as it is, panics, or leaves a limit of a job's size that is not above
-- JobDataSizeLimitMax as an int64, and the log in use if it was or if a directory is given.
pub opt_parse-limit :
    (known : Known) (f : Flags) (w : World)
    → Ends
        (λ out.
          ((out.0 ≡ none) × (f.show_version ≡ true) × (out.1 ≡ w))
          ⊎ ((slt job_data_size_limit_max out.1.max_job_size ≡ false)
              × (out.1.wal.in_use
                  ≡ (if not (is_empty f.bing_log_dir) then true else w.wal.in_use))))
        (opt_parse known f w)
unfolding opt_parse set_options
opt_parse-limit known f w = elim (Bool-cases f.show_version) [
  | inl v ↦ rw (opt_parse, v) (ends (inl (refl, refl, refl)))
  | inr v ↦ elim (Bool-cases (known.level f.log_level)) [
    | inr l ↦ rw (opt_parse, v, l) stops
    | inl l ↦
        rw (opt_parse, v, l)
          (Ends-bind (λ dir. return (some dir)) (set_options known f) w
            (options_set f (slt job_data_size_limit_max f.max_job_size) f.fsync_never
              (not (is_empty f.user) && not (known.user f.user)) (not (is_empty f.bing_log_dir)) w)
            λ a u (limit, in_use). ends (inr (rw limit (capped f.max_job_size), in_use)))
  ]
]
