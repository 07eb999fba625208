-- ===== src/Net/Commands/Lists/Size.antt =====
-- The size that the replies of the lists and statistics announce (net/prot.go: doListTubes).
use gostalkd.Prelude.{
  ℕ, ◌+◌, ◌≡◌, refl, List, [], ◌∷◌, ◌++◌, Bytes, codes, crlf, lf, length, length-append, arith,
}
use gostalkd.Core.Tube.{Tube}
use gostalkd.Machine.{World}
use gostalkd.Net.Commands.Lists.{names_size, names_text, do_list_tubes, send_body}

names_text-size : (at : ℕ → Tube) (l : List ℕ) → length (names_text at l) ≡ names_size at l
names_text-size at [] = refl
names_text-size at (t ∷ ts) =
    let rest = names_text-size at ts in
    let split = length-append (at t).name (lf ∷ names_text at ts) in omega (arith, rest, split)

-- The body of a reply to list-tubes or list-tubes-watched.
abbrev pub tubes_text : (ℕ → Tube) → List ℕ → Bytes
tubes_text at l = codes "---" ++ lf ∷ names_text at l ++ crlf

-- doListTubes sends the names of the tubes with the size of just that text, which the reply
-- announces without its last CR LF.
pub do_list_tubes-send_body :
    (w : World) (c : ℕ) (l : List ℕ)
    → do_list_tubes c l w
      ≡ send_body c (length (tubes_text w.tubes.at l)) (tubes_text w.tubes.at l) w
unfolding do_list_tubes
do_list_tubes-send_body w c l =
    let at = w.tubes.at in
    let names = names_text-size at l in
    let split = length-append (names_text at l) crlf in
    let e : 6 + names_size at l ≡ length (tubes_text at l) = omega (arith, names, split) in rw e
