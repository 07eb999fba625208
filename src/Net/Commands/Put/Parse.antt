-- ===== src/Net/Commands/Put/Parse.antt =====
-- How net/prot.go's dispatchOpPut reads its command.
use gostalkd.Prelude.{
  ℕ, zero, suc, ◌+◌, ◌*◌, ◌≤◌, ◌<◌, ◌≡◌, refl, ◌∙◌, ap, false, [], ◌∷◌, ◌++◌, some, Bytes, codes,
  cr, space, is_digit, Stops, ltb, add64, slt, if◌then◌else◌, inl, inr, Bool-cases, length,
  length-append, length-replicate, length-drop, drop, replicate, get_elem?, arith,
}
use gostalkd.Utils.Str.{int64_limit}
use gostalkd.Utils.Str.Decimal.{decimal}
use gostalkd.Utils.Str.Numbers.{read_int-decimal, read_duration-exact}
use gostalkd.Machine.{World, op_put}
use gostalkd.Machine.Actions.{M, ◌>>=◌, ◌>>◌, count_op}
use gostalkd.Net.Conn.{conn_set_producer}
use gostalkd.Net.Reply.{msg_job_too_big}
use gostalkd.Net.Commands.{cmd_from, with_int}
use gostalkd.Net.Commands.Put.{with_duration, skip, make_in_job, dispatch_op_put}
use gostalkd.Net.Commands.Put.Body.{drop-drop}

-- The text `rest` stands in `s` from the index on.
pub record At (s : Bytes) (idx : ℕ) (rest : Bytes) : Type 0 where
  pub at : drop idx s ≡ rest
  pub inside : idx ≤ length s

drop-append : (xs ys : Bytes) → drop (length xs) (xs ++ ys) ≡ ys
drop-append [] ys = refl
drop-append (x ∷ xs) ys = drop-append xs ys

At-append : (s xs rest : Bytes) (idx : ℕ) → At s idx (xs ++ rest) → At s (idx + length xs) rest
At-append s xs rest idx h = record {
  at = drop-drop idx (length xs) s ∙ ap (drop (length xs)) h.at ∙ drop-append xs rest;
  inside =
      let e : length (drop idx s) ≡ length (xs ++ rest) = ap length h.at in
      omega (arith, e, h.inside, length-drop idx s, length-append xs rest);
}

At-get_elem? : (s rest : Bytes) (idx c : ℕ) → At s idx (c ∷ rest) → get_elem? s idx ≡ some c
At-get_elem? [] rest zero c h = cc (h.at)
At-get_elem? [] rest (suc idx) c h = cc (h.at)
At-get_elem? (x ∷ s) rest zero c h = cc (h.at)
At-get_elem? (x ∷ s) rest (suc idx) c h =
    At-get_elem? s rest idx c record { at = h.at; inside = omega (arith, h.inside) }

cmd_from-At :
    (w : World) (c idx : ℕ) (rest : Bytes)
    → At (w.conn c).cmd idx rest
    → cmd_from c idx w ≡ some (rest, w)
cmd_from-At w c idx rest h =
    let inside : ltb (length (w.conn c).cmd) idx ≡ false = ground (arith, h.inside) in
    rw (inside, h.at)

At-number :
    (s rest : Bytes) (k n idx : ℕ)
    → At s idx (replicate k space ++ (decimal n ++ rest))
    → At s (idx + (k + length (decimal n))) rest
At-number s rest k n idx h =
    let first = At-append s (replicate k space) (decimal n ++ rest) idx h in
    let second = At-append s (decimal n) rest _ first in
    let len = length-replicate k space in
    let e : idx + length (replicate k space) + length (decimal n) ≡ idx + (k + length (decimal n)) =
      omega (arith, len) in
    rw e at second

module _ (w : World) (c k n idx : ℕ) (rest : Bytes) (f : ℕ → ℕ → M (Unit {0}))
    (h : At (w.conn c).cmd idx (replicate k space ++ (decimal n ++ rest)))
    (st : Stops is_digit rest) where
  with_int-decimal : n < int64_limit → with_int c idx f w ≡ f n (idx + (k + length (decimal n))) w
  unfolding with_int
  with_int-decimal lt = rw (
    with_int,
    ◌>>=◌,
    cmd_from-At w c idx (replicate k space ++ (decimal n ++ rest)) h,
    read_int-decimal k n idx rest lt st,
  )

  pub with_duration-decimal :
      n ≤ 9_223_372_036
      → with_duration c idx f w ≡ f (n * 1_000_000_000) (idx + (k + length (decimal n))) w
  unfolding with_duration
  with_duration-decimal le = rw (
    with_duration,
    ◌>>=◌,
    cmd_from-At w c idx (replicate k space ++ (decimal n ++ rest)) h,
    (read_duration-exact k n idx rest le st).0,
  )

-- The text of a put command: its numbers in decimal notation, and what follows.
abbrev pub put_text : ℕ → ℕ → ℕ → ℕ → Bytes → Bytes
put_text pri delay ttr size rest =
    codes "put "
    ++ (decimal pri
        ++ space ∷ (decimal delay ++ space ∷ (decimal ttr ++ space ∷ (decimal size ++ cr ∷ rest))))

-- how dispatchOpPut goes on behind such a text
pub dispatch_op_put-put_text :
    (w : World) (c pri delay ttr size : ℕ) (rest : Bytes)
    → (w.conn c).cmd ≡ put_text pri delay ttr size rest
    → pri < int64_limit
    → delay ≤ 9_223_372_036
    → ttr ≤ 9_223_372_036
    → size < int64_limit
    → dispatch_op_put c w
      ≡ (count_op op_put
            >> (if slt w.max_job_size size
                then skip c (add64 size 2) msg_job_too_big
                else (conn_set_producer c
                    >> make_in_job c pri (delay * 1_000_000_000) (ttr * 1_000_000_000) size)))
          w
unfolding dispatch_op_put
dispatch_op_put-put_text w c pri delay ttr size rest text lt₁ le₂ le₃ lt₄ =
    let s = (w.conn c).cmd in
    let r₄ = decimal size ++ cr ∷ rest in
    let r₃ = decimal ttr ++ space ∷ r₄ in
    let r₂ = decimal delay ++ space ∷ r₃ in
    let r₁ = decimal pri ++ space ∷ r₂ in
    let e = ap length text in
    let at₁ : At s 4 r₁ = record { at = ap (drop 4) text; inside = omega (arith, e) } in
    let at₂ = At-number s (space ∷ r₂) 0 pri 4 at₁ in
    let i₂ = 4 + (0 + length (decimal pri)) in
    let at₃ = At-number s (space ∷ r₃) 1 delay i₂ at₂ in
    let i₃ = i₂ + (1 + length (decimal delay)) in
    let at₄ = At-number s (space ∷ r₄) 1 ttr i₃ at₃ in
    let i₄ = i₃ + (1 + length (decimal ttr)) in
    let at₅ = At-number s (cr ∷ rest) 1 size i₄ at₄ in
    let i₅ = i₄ + (1 + length (decimal size)) in
    rw
      (
        dispatch_op_put,
        with_int-decimal w c 0 pri 4 (space ∷ r₂) _ at₁ refl lt₁,
        with_duration-decimal w c 1 delay i₂ (space ∷ r₃) _ at₂ refl le₂,
        with_duration-decimal w c 1 ttr i₃ (space ∷ r₄) _ at₃ refl le₃,
        with_int-decimal w c 1 size i₄ (cr ∷ rest) _ at₄ refl lt₄,
      )
      (elim (Bool-cases (slt w.max_job_size size)) [
        | inl h ↦ rw (◌>>◌, ◌>>=◌, h)
        | inr h ↦ rw (◌>>◌, ◌>>=◌, h, At-get_elem? s rest i₅ cr at₅)
      ])
