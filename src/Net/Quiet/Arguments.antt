-- ===== src/Net/Quiet/Arguments.antt =====
-- How the handlers of net/prot.go read their arguments, with what they do next.
use gostalkd.Prelude.{ℕ, Bytes}
use gostalkd.Utils.Str.{Parsed, parsed, fmt_error, panics}
use gostalkd.Machine.Actions.{M}
use gostalkd.Machine.Frame.{Quiets, quiet}
use gostalkd.Net.Quiet.Conns.{reply_msg-quiet}
use gostalkd.Net.Commands.{on_parsed, with_int, with_exact}
use gostalkd.Net.Commands.Tubes.{with_name}

pub on_parsed-quiet :
    {A : Type 0} (c : ℕ) (p : Parsed (A × ℕ)) (k : A → ℕ → M (Unit {0}))
    → ((a : A) (i : ℕ) → Quiets (k a i))
    → Quiets (on_parsed c p k)
unfolding on_parsed
on_parsed-quiet c (parsed (a, i)) k h = h a i
on_parsed-quiet c fmt_error k h = search (reply_msg-quiet, quiet)
on_parsed-quiet c panics k h = search quiet

pub with_int-quiet :
    (c idx : ℕ) (k : ℕ → ℕ → M (Unit {0}))
    → ((n i : ℕ) → Quiets (k n i))
    → Quiets (with_int c idx k)
unfolding with_int
with_int-quiet c idx k h = search (on_parsed-quiet, quiet) depth 60 fits 4000

pub with_name-quiet :
    (c idx : ℕ) (k : Bytes → ℕ → M (Unit {0}))
    → ((n : Bytes) (i : ℕ) → Quiets (k n i))
    → Quiets (with_name c idx k)
unfolding with_name
with_name-quiet c idx k h = search (on_parsed-quiet, quiet) depth 60 fits 4000

pub with_exact-quiet : (c len : ℕ) (k : M (Unit {0})) → Quiets k → Quiets (with_exact c len k)
unfolding with_exact
with_exact-quiet c len k h = search (reply_msg-quiet, quiet) depth 60 fits 4000
