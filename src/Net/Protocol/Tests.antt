-- ===== src/Net/Protocol/Tests.antt =====
-- Command lines.
use gostalkd.Prelude.{◌≡◌, ◌≢◌, refl, false, inr, ◌∷◌, ◌++◌, Bytes, codes, cr, crlf, arith}
use gostalkd.Machine.{op_peek_job}
use gostalkd.Net.Protocol.{which_cmd, scan_line_end}
use gostalkd.Net.Protocol.Names.{which_cmd-Mem}
use mathlib.Core.List.{Memᴰ}
use gostalkd.Core.Tube.{same_name}
use gostalkd.Core.Tube.Find.{same_name_iff}

peek_test : which_cmd (codes "peek 12" ++ crlf) ≡ op_peek_job
unfolding which_cmd
peek_test = refl

-- A CR that no LF follows hides a complete line behind it.
lone_cr_test : scan_line_end (codes "a" ++ cr ∷ codes "b" ++ crlf) 5 ≡ 0
unfolding scan_line_end
lone_cr_test = refl

which_cmd-Mem_example : which_cmd (codes "peek" ++ codes " 12") ≡ op_peek_job
which_cmd-Mem_example =
    which_cmd-Mem (codes "peek", op_peek_job) (codes " 12") (Memᴰ.tail (Memᴰ.head refl)) (inr refl)

apart : (s t : Bytes) → same_name s t ≡ false → s ≢ t
apart s t h e = absurd (ground (arith, (same_name_iff s t).1 e))
