-- ===== src/Utils/Tube.antt =====
-- utils/tube.go: which names a tube may have; and ReadTubeName of utils/str.go, which uses it.
pub mod Valid
mod Tests
use gostalkd.Prelude.{
  ℕ, ◌+◌, ◌-◌, ◌≡◌, Bool, true, false, not, ◌&&◌, List, [], ◌∷◌, Option, none, some, ltb, leb, ◌==◌,
  if◌then◌else◌, length, take, Bytes, codes, span_of,
}
use gostalkd.Utils.Str.{Parsed, parsed, fmt_error, is_space, str_len}

-- nameCharts
abbrev pub name_charts : Bytes
name_charts = codes "ABCDEFGHIJKLMNOPQRSTUVWXYZabcdefghijklmnopqrstuvwxyz0123456789-+/;.$_()"

abbrev pub member : ℕ → Bytes → Bool
member c [] = false
member c (d ∷ s) = if d == c then true else member c s

-- chartsAry[c] != 0, after init
unfoldable pub is_name_chart : ℕ → Bool
is_name_chart c = member c name_charts

-- StrSpn
unfoldable pub str_spn : Bytes → ℕ
str_spn [] = 0
str_spn (c ∷ s) = let more = str_spn s + 1 in if is_name_chart c then more else 0

-- MaxTubeNameLen
abbrev pub max_tube_name_len : ℕ
max_tube_name_len = 201

-- `name[0] != '-'`, which is read only if the name has a byte
abbrev starts_well : Bytes → Bool
starts_well [] = true
starts_well (c ∷ s) = not (c == b'-')

-- IsValidTube
unfoldable pub is_valid_tube : Bytes → Bool
unfolding str_len str_spn
is_valid_tube name =
    let l = str_len name in
    ltb 0 l && leb l (max_tube_name_len - 1) && (str_spn name == l) && starts_well name

-- ReadTubeName: the name, and the new `*idx`
unfoldable pub read_tube_name : Bytes → ℕ → Parsed (Bytes × ℕ)
unfolding str_spn is_name_chart
read_tube_name buf idx =
    let (spaces, rest) = span_of is_space buf in
    let l = str_spn rest in
    if l == 0 then fmt_error else parsed (take l rest, idx + (length spaces + l))
