-- ===== src/Parse/Header/Total.antt =====
-- `parse` of parse/mod.rs on any buffer.
use proxy_protocol_rs.Prelude.{
  ℕ, ◌≤◌, ◌≡◌, ◌≢◌, refl, inl, inr, List, [], ◌∷◌, ◌++◌, length, take, slice_lem, slice-append,
  length-append, Bool-cases, ltb, le→ltb, ltb_false→le, ◌==◌, bytes_eq, starts_with, err, Returns,
  arith,
}
use proxy_protocol_rs.Error.{ParseError, incomplete}
use proxy_protocol_rs.Crc.{Crc32c}
use proxy_protocol_rs.Parse.V1.Total.{parse_v1-Returns, parse_v1-append}
use proxy_protocol_rs.Parse.V2.Total.{parse_v2-Returns, parse_v2-append}
use proxy_protocol_rs.Parse.Header.{v2_signature, v1_prefix, parse_text, parse_binary, parse}

parse_text-Returns : (buf : List ℕ) → Returns (parse_text buf)
unfolding parse_text
parse_text-Returns buf = ground (arith, parse_v1-Returns buf)

-- The first six bytes decide the prefix.
starts_with-append :
    (p xs ys : List ℕ) → length p ≤ length xs → starts_with (xs ++ ys) p ≡ starts_with xs p
starts_with-append [] xs ys h = refl
starts_with-append (b ∷ p) [] ys h = absurd (omega arith)
starts_with-append (b ∷ p) (x ∷ xs) ys h = rw (starts_with-append p xs ys (omega arith))

parse_text-append :
    (buf more : List ℕ)
    → parse_text buf ≢ err incomplete
    → parse_text (buf ++ more) ≡ parse_text buf
unfolding parse_text
parse_text-append buf more h = elim (Bool-cases (ltb (length buf) 6)) [
  | inl short ↦ absurd (h (rw short))
  | inr long ↦
      let le : 6 ≤ length buf = ltb_false→le _ _ long in
      rw
        (
          long,
          le→ltb (length (buf ++ more)) 6 (omega (arith, length-append buf more)),
          starts_with-append v1_prefix buf more (omega arith),
        )
        (elim (Bool-cases (starts_with buf v1_prefix)) [
          | inl e ↦ rw e (parse_v1-append buf more (λ q. h (rw (long, e) q)))
          | inr e ↦ rw e
        ])
]

module _ (c : Crc32c) where
  parse_binary-Returns : (buf : List ℕ) → Returns (parse_binary c buf)
  unfolding parse_binary
  parse_binary-Returns buf = elim (Bool-cases (ltb (length buf) 12)) [
    | inl short ↦ rw short tt
    | inr long ↦
        rw (long, slice_lem {E = ParseError} buf 0 12 (omega arith) (ltb_false→le _ _ long))
          (ground (arith, parse_v2-Returns c buf))
  ]

  parse_binary-append :
      (buf more : List ℕ)
      → parse_binary c buf ≢ err incomplete
      → parse_binary c (buf ++ more) ≡ parse_binary c buf
  unfolding parse_binary
  parse_binary-append buf more h = elim (Bool-cases (ltb (length buf) 12)) [
    | inl short ↦ absurd (h (rw short))
    | inr long ↦
        let le : 12 ≤ length buf = ltb_false→le _ _ long in
        let s = slice_lem {E = ParseError} buf 0 12 (omega arith) le in
        rw
          (
            long,
            le→ltb (length (buf ++ more)) 12 (omega (arith, length-append buf more)),
            slice-append {E = ParseError} buf more 0 12 (omega arith) le,
            s,
          )
          (elim (Bool-cases (bytes_eq (take 12 buf) v2_signature)) [
            | inl e ↦ rw e (parse_v2-append c buf more (λ q. h (rw (long, s, e) q)))
            | inr e ↦ rw e
          ])
  ]

  -- On every buffer `parse` comes back, with a header or with an error: no index or slice is out of
  -- bounds, no conversion panics, and the loops end.
  pub parse-Returns : (buf : List ℕ) → Returns (parse c buf)
  unfolding parse
  parse-Returns [] = tt
  parse-Returns (b ∷ bs) =
      ground (arith, parse_binary-Returns (b ∷ bs), parse_text-Returns (b ∷ bs))

  -- Once `parse` gives an answer other than `Incomplete` on a buffer, a header or another error, it
  -- gives the same answer on every buffer that begins with those bytes.
  pub parse-append :
      (buf more : List ℕ) → parse c buf ≢ err incomplete → parse c (buf ++ more) ≡ parse c buf
  unfolding parse
  parse-append [] more h = absurd (h refl)
  parse-append (b ∷ bs) more h = elim (Bool-cases (b == 0x0d)) [
    | inl e ↦ rw e (parse_binary-append (b ∷ bs) more (λ q. h (rw e q)))
    | inr e ↦ elim (Bool-cases (b == b'P')) [
      | inl f ↦ rw (e, f) (parse_text-append (b ∷ bs) more (λ q. h (rw (e, f) q)))
      | inr f ↦ rw (e, f)
    ]
  ]
