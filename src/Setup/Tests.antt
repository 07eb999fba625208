-- ===== src/Setup/Tests.antt =====
-- OptParse, on a concrete input.
use gostalkd.Prelude.{◌≡◌, ◌⊎◌, true, false, [], none, codes, not, slt, if◌then◌else◌}
use gostalkd.Machine.Frame.{Ends}
use gostalkd.Machine.Sample.{sample_world}
use gostalkd.Setup.{Known, Flags, job_data_size_limit_max, is_empty, opt_parse}
use gostalkd.Setup.Limit.{opt_parse-limit}

abbrev all_known : Known
all_known = record { level = λ s. true; user = λ s. true }

-- a limit of two gigabytes, and a directory for the log
abbrev flags : Flags
flags = record {
  port = 11_400;
  bing_log_dir = codes "log";
  fsync_ms = 50;
  fsync_never = true;
  listen_addr = codes "0.0.0.0";
  user = [];
  max_job_size = 2_147_483_648;
  each_write_ahead_log_size = 10_485_760;
  show_version = false;
  log_level = codes "warn";
}

opt_parse-limit_example :
    Ends
      (λ out.
        ((out.0 ≡ none) × (flags.show_version ≡ true) × (out.1 ≡ sample_world))
        ⊎ ((slt job_data_size_limit_max out.1.max_job_size ≡ false)
            × (out.1.wal.in_use
                ≡ (if not (is_empty flags.bing_log_dir) then true else sample_world.wal.in_use))))
      (opt_parse all_known flags sample_world)
opt_parse-limit_example = opt_parse-limit all_known flags sample_world
