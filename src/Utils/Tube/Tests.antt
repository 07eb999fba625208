-- ===== src/Utils/Tube/Tests.antt =====
-- Names of tubes, accepted and refused.
use gostalkd.Prelude.{◌≡◌, ◌↔◌, refl, true, false, codes}
use gostalkd.Utils.Str.{fmt_error, str_len}
use gostalkd.Utils.Tube.{is_valid_tube, read_tube_name, is_name_chart}
use gostalkd.Utils.Tube.Valid.{IsTubeName, is_valid_tube_iff}

dash_test : is_valid_tube (codes "-a") ≡ false
unfolding is_valid_tube is_name_chart
dash_test = refl

blank_test : read_tube_name (codes "  ") 4 ≡ fmt_error
unfolding read_tube_name
blank_test = refl

is_valid_tube_iff_example : (is_valid_tube (codes "mail-1") ≡ true) ↔ IsTubeName (codes "mail-1")
unfolding str_len
is_valid_tube_iff_example = is_valid_tube_iff (codes "mail-1") refl
