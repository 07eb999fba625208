-- ===== src/Net/Tallied/Tests.antt =====
-- The numbers of users and watchers of the tubes, on a concrete input.
use gostalkd.Prelude.{ℕ, zero, suc, ◌≡◌, refl, ◌++◌, codes, crlf, arith, ◌==◌, false}
use gostalkd.Core.Tube.{Tube}
use gostalkd.Machine.{World}
use gostalkd.Machine.Frame.{Ends}
use gostalkd.Machine.Sample.{sample_world, sample_conn, sample_tubes, sample_tube}
use gostalkd.Net.Serve.{serve_commands}
use gostalkd.Net.Tallied.{IsTallied}
use gostalkd.Net.Tallied.Commands.{serve_commands-IsTallied}

abbrev counted_tubes : ℕ → Tube
counted_tubes zero = record sample_tube { using_ct = 2; watching_ct = 2 }
counted_tubes (suc t) = record sample_tube { using_ct = 0; watching_ct = 0 }

-- Two connections that use and watch the tube at 0, and have read two commands.
abbrev shared : World
shared = record sample_world {
  fresh_conn = 2;
  tubes = record sample_tubes { at = counted_tubes };
  conn = λ c. record sample_conn {
    cmd = codes "use mail" ++ crlf ++ codes "watch a" ++ crlf;
    cmd_read = 19;
  };
}

shared-IsTallied : IsTallied shared
shared-IsTallied = record {
  used = elim [ zero ↦ refl | suc t ↦ (let e : (0 == suc t) ≡ false = ground arith in rw e) ];
  watched = elim [ zero ↦ refl | suc t ↦ (let e : (suc t == 0) ≡ false = ground arith in rw e) ];
  blank = elim [ zero ↦ (λ h. absurd (omega (arith, h))) | suc t ↦ (λ h. refl) ];
  known = (omega arith, tt);
  using = λ b t e. ground arith;
  watching = λ b. (omega arith, tt);
}

serve_commands-IsTallied_example : Ends (λ out. IsTallied out.1) (serve_commands 20 1 shared)
serve_commands-IsTallied_example =
    serve_commands-IsTallied 20 1 shared (omega arith) shared-IsTallied
