-- ===== src/Parse/V1/Errors.antt =====
-- The errors of parse/v1.rs.
use proxy_protocol_rs.Prelude.{
  ◌==◌, ◌&&◌, ◌+◌, sym, zero, suc, length-append, ℕ, ◌-◌, ◌≤◌, ◌++◌, min, length-take, ◌≡◌, refl,
  ap, ◌∙◌, inl, inr, Bool, true, false, not, Bool-cases, ltb, ltb→lt, ltb_false→le, none,
  Option-cases, List, [], ◌∷◌, length, slice_lem, fail_if, OnErr, OnErr-ok, OnErr-err, OnErr->>=,
  OnErr->>, fail_if-OnErr, take, arith,
}
use proxy_protocol_rs.Std.Utf8.{is_utf8}
use proxy_protocol_rs.Error.{ParseError, invalid, v1_not_utf8}
use proxy_protocol_rs.Error.Reasons.{IsOpen, IsExplained}
use proxy_protocol_rs.Parse.V1.{find_crlf, parse_line, no_line_end, parse_v1}
use proxy_protocol_rs.Parse.V1.Fields.{line_split}
use proxy_protocol_rs.Parse.V1.Total.{window, window-lt, parse_v1_lem}
use proxy_protocol_rs.Parse.V1.LineErrors.{parse_line-IsLineError, IsLineError-IsExplained}

no_true : (b : Bool) → not b ≡ true → b ≡ false
no_true true h = cc
no_true false h = refl

-- A CR LF is found.
crlf_found : (line rest : List ℕ) → find_crlf (line ++ (0x0d ∷ 0x0a ∷ rest)) ≡ none → ⊥
unfolding find_crlf
crlf_found [] rest h = cc
crlf_found (a ∷ []) rest h = elim (Bool-cases (a == 0x0d)) [
  | inl e ↦ cc (rw e at h)
  | inr e ↦ cc (rw e at h)
]
crlf_found (a ∷ b ∷ line) rest h = elim (Bool-cases (a == 0x0d && b == 0x0a)) [
  | inl e ↦ cc (rw e at h)
  | inr e ↦ elim (Option-cases (find_crlf (b ∷ (line ++ (0x0d ∷ 0x0a ∷ rest))))) [
    | inl q ↦ crlf_found (b ∷ line) rest q
    | inr (i, q) ↦ cc (rw (e, q) at h)
  ]
]

-- A CR LF that ends among the first bytes is there when only they are taken.
take_behind :
    (line rest : List ℕ) (m : ℕ)
    → length line + 2 ≤ m
    → (r : List ℕ) × (take m (line ++ (0x0d ∷ 0x0a ∷ rest)) ≡ line ++ (0x0d ∷ 0x0a ∷ r))
take_behind [] rest zero h = absurd (omega arith)
take_behind [] rest (suc zero) h = absurd (omega arith)
take_behind [] rest (suc (suc m)) h = (take m rest, refl)
take_behind (a ∷ line) rest zero h = absurd (omega arith)
take_behind (a ∷ line) rest (suc m) h =
    let (r, e) = take_behind line rest m (omega arith) in (r, ap (◌∷◌ a) e)

no_crlf-IsOpen : (buf : List ℕ) → find_crlf (window buf) ≡ none → IsOpen buf
no_crlf-IsOpen buf none_found line rest whole fits =
    let m = min (length buf) 107 in
    let long : length buf ≡ length line + length (0x0d ∷ 0x0a ∷ rest) =
      ap length whole ∙ length-append line (0x0d ∷ 0x0a ∷ rest) in
    let (r, e) = take_behind line rest m (omega (arith, long)) in
    crlf_found line r
      (ap find_crlf (sym e) ∙ (ap (λ b. find_crlf (take m b)) (sym whole) ∙ none_found))

no_line_end-IsExplained :
    (buf : List ℕ) → find_crlf (window buf) ≡ none → IsExplained buf (no_line_end buf)
unfolding no_line_end
no_line_end-IsExplained buf h = elim (Bool-cases (ltb (length buf) 107)) [
  | inl e ↦ rw e (omega (arith, ltb→lt _ _ e))
  | inr e ↦ rw e (ltb_false→le _ _ e, no_crlf-IsOpen buf h)
]

pub parse_v1-IsExplained : (buf : List ℕ) → OnErr (IsExplained buf) (parse_v1 buf)
parse_v1-IsExplained buf = rw (parse_v1_lem buf) (elim (Option-cases (find_crlf (window buf))) [
  | inl e ↦ rw e (OnErr-err (no_line_end buf) (no_line_end-IsExplained buf e))
  | inr (i, e) ↦
      let (fits, inside) = window-lt buf e in
      let line = take i buf in
      let same : i - 0 ≡ i = omega arith in
      let (rest, whole) =
        line_split buf i e (omega (arith, fits, inside, length-take (min (length buf) 107) buf)) in
      rw (e, slice_lem {E = ParseError} buf 0 i (omega arith) (omega arith), same)
        (OnErr->> (fail_if (not (is_utf8 line)) (invalid v1_not_utf8)) _
          (fail_if-OnErr (not (is_utf8 line)) (invalid v1_not_utf8)
            λ q. (line, rest, whole, no_true (is_utf8 line) q))
          λ q.
            OnErr->>= (parse_line line) _
              (record {
                on_err = λ e n.
                    IsLineError-IsExplained line buf rest whole e
                      ((parse_line-IsLineError line).on_err e n);
              })
              λ info k. OnErr-ok _)
])
