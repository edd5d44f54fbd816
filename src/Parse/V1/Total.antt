-- ===== src/Parse/V1/Total.antt =====
-- `parse_v1` of parse/v1.rs on any bytes, and on more of them.
use proxy_protocol_rs.Prelude.{
  ℕ, ◌+◌, ◌-◌, ◌≤◌, ◌≡◌, ◌≢◌, sym, ap, ◌∙◌, inl, inr, List, [], ◌∷◌, ◌++◌, length, take, drop, min,
  slice, slice_lem, slice-append, length-take, length-append, take-append_le, take-split,
  Bool-cases, ltb, le→ltb, ltb_false→le, not, Outcome, ok, err, Returns, Returns->>=, Returns->>,
  ◌>>=◌, ◌>>◌, fail_if, fail_if-Returns, Option, none, some, Option-cases, arith,
}
use proxy_protocol_rs.Std.Utf8.{is_utf8}
use proxy_protocol_rs.Types.{AddressFamily, ProxyInfo}
use proxy_protocol_rs.Error.{ParseError, incomplete, invalid, v1_too_long, v1_not_utf8}
use proxy_protocol_rs.Parse.V1.{
  find_crlf, parse_fields, parse_parts, parse_line, no_line_end, parse_v1, splitn,
}

pub find_crlf-lt : (xs : List ℕ) {i : ℕ} → find_crlf xs ≡ some i → i + 2 ≤ length xs
unfolding find_crlf
find_crlf-lt [] h = cc
find_crlf-lt (a ∷ []) h = cc
find_crlf-lt (a ∷ b ∷ xs) {i} h = ground (arith, find_crlf-lt (b ∷ xs) {i = i - 1})

pub find_crlf-append :
    (xs ys : List ℕ) {i : ℕ} → find_crlf xs ≡ some i → find_crlf (xs ++ ys) ≡ some i
unfolding find_crlf
find_crlf-append [] ys h = cc
find_crlf-append (a ∷ []) ys h = cc
find_crlf-append (a ∷ b ∷ xs) ys {i} h = ground (arith, find_crlf-append (b ∷ xs) ys {i = i - 1})

parse_fields-Returns :
    (f : AddressFamily) (si di sp dp : List ℕ) → Returns (parse_fields f si di sp dp)
unfolding parse_fields
parse_fields-Returns f si di sp dp = ground arith

parse_parts-Returns : (ps : List (List ℕ)) → Returns (parse_parts ps)
unfolding parse_parts
parse_parts-Returns (a ∷ t ∷ si ∷ di ∷ sp ∷ dp ∷ []) =
    Returns->>= _ _ (ground arith) λ f _. parse_fields-Returns f si di sp dp
parse_parts-Returns _ = tt

pub parse_line-Returns : (line : List ℕ) → Returns (parse_line line)
unfolding parse_line
parse_line-Returns line = ground (arith, parse_parts-Returns (splitn 7 line))

-- The bytes in which the line's end is looked for
abbrev pub window : List ℕ → List ℕ
window buf = take (min (length buf) 107) buf

-- `parse_v1` behind the search
abbrev pub behind_search : Option ℕ → List ℕ → Outcome (ProxyInfo × ℕ) ParseError
behind_search none buf = err (no_line_end buf)
behind_search (some line_end) buf = do
  line ← slice buf 0 line_end
  fail_if (not (is_utf8 line)) (invalid v1_not_utf8)
  info ← parse_line line
  ok (info, line_end + 2)

min_zero : (m : ℕ) → m - 0 ≡ m
min_zero m = omega arith

pub parse_v1_lem : (buf : List ℕ) → parse_v1 buf ≡ behind_search (find_crlf (window buf)) buf
unfolding parse_v1
parse_v1_lem buf =
    rw
      (
        slice_lem {E = ParseError} buf 0 (min (length buf) 107) (omega arith) (omega arith),
        min_zero,
      )
      (elim (Option-cases (find_crlf (window buf))) [ inl e ↦ rw e | inr (i, e) ↦ rw e ])

pub window-lt :
    (buf : List ℕ) {i : ℕ} → find_crlf (window buf) ≡ some i → (i + 2 ≤ length buf) × (i + 2 ≤ 107)
window-lt buf {i} h =
    let k = find_crlf-lt (window buf) h in
    (
      omega (arith, length-take (min (length buf) 107) buf),
      omega (arith, length-take (min (length buf) 107) buf),
    )

pub parse_v1-Returns : (buf : List ℕ) → Returns (parse_v1 buf)
parse_v1-Returns buf = rw (parse_v1_lem buf) (elim (Option-cases (find_crlf (window buf))) [
  | inl e ↦ rw e tt
  | inr (i, e) ↦
      let (fits, _) = window-lt buf e in
      rw (e, slice_lem {E = ParseError} buf 0 i (omega arith) (omega arith))
        (Returns->> _ _ (fail_if-Returns _ _)
          (Returns->>= _ _ (parse_line-Returns _) (λ info _. tt)))
])

-- A longer buffer has a longer window.
pub window-append :
    (buf more : List ℕ) → (rest : List ℕ) × (window (buf ++ more) ≡ window buf ++ rest)
window-append buf more =
    let n = min (length buf) 107 in
    let m = min (length (buf ++ more)) 107 in
    let (le, len) : (n ≤ m) × (n ≤ length buf) =
      (omega (arith, length-append buf more), omega arith) in
    (
      take (m - n) (drop n (buf ++ more)),
      take-split n m (buf ++ more) le
          ∙ ap (λ q. q ++ take (m - n) (drop n (buf ++ more))) (take-append_le buf more n len),
    )

-- A full window does not grow.
window_full : (buf more : List ℕ) → 107 ≤ length buf → window (buf ++ more) ≡ window buf
window_full buf more h =
    let e : min (length (buf ++ more)) 107 ≡ 107 = omega (arith, length-append buf more) in
    let e' : min (length buf) 107 ≡ 107 = omega arith in rw (e, e') (take-append_le buf more 107 h)

no_line_end_full : (buf : List ℕ) → 107 ≤ length buf → no_line_end buf ≡ invalid v1_too_long
unfolding no_line_end
no_line_end_full buf h = rw (le→ltb (length buf) 107 h)

-- Once `parse_v1` does not ask for more data, more data does not change its answer.
pub parse_v1-append :
    (buf more : List ℕ) → parse_v1 buf ≢ err incomplete → parse_v1 (buf ++ more) ≡ parse_v1 buf
parse_v1-append buf more h =
    parse_v1_lem (buf ++ more)
    ∙ (elim (Option-cases (find_crlf (window buf))) [
      | inl e ↦ elim (Bool-cases (ltb (length buf) 107)) [
        | inl short ↦ absurd (h (parse_v1_lem buf ∙ rw e (unfold no_line_end in rw short)))
        | inr long ↦
            let full : 107 ≤ length buf = ltb_false→le _ _ long in
            rw (window_full buf more full, e)
              (ap err (
                no_line_end_full (buf ++ more) (omega (arith, length-append buf more))
                ∙ sym (no_line_end_full buf full)))
      ]
      | inr (i, e) ↦
          let (rest, w) = window-append buf more in
          let (fits, _) = window-lt buf e in
          rw (
            w,
            find_crlf-append (window buf) rest e,
            e,
            slice-append {E = ParseError} buf more 0 i (omega arith) (omega arith),
          )
    ]
        ∙ sym (parse_v1_lem buf))
