-- ===== src/Parse/Header/Consumed.antt =====
-- How many bytes `parse` of parse/mod.rs consumes.
use proxy_protocol_rs.Prelude.{
  ℕ, ◌+◌, ◌≤◌, ◌≡◌, sym, ap, ◌∙◌, ◌⊎◌, inl, inr, List, [], ◌∷◌, length, take, slice_lem, Bool-cases,
  Option-cases, ltb, ltb_false→le, ◌==◌, not, some, ok, fail_if, >>=-eq-ok, >>-eq-ok, ok-injective,
  arith,
}
use proxy_protocol_rs.Types.{ProxyInfo}
use proxy_protocol_rs.Error.{ParseError, invalid, v1_not_utf8}
use proxy_protocol_rs.Crc.{Crc32c}
use proxy_protocol_rs.Std.Utf8.{is_utf8}
use proxy_protocol_rs.Parse.V1.{find_crlf, parse_line, parse_v1}
use proxy_protocol_rs.Parse.V1.Total.{window, window-lt, behind_search, parse_v1_lem}
use proxy_protocol_rs.Parse.V2.{parse_v2}
use proxy_protocol_rs.Parse.V2.Crc.{sub_zero}
use proxy_protocol_rs.Parse.V2.Parsed.{parse_v2-ParsedV2}
use proxy_protocol_rs.Parse.Header.{parse_text, parse_binary, parse}

-- What `parse_v1` consumed
pub record ParsedV1 (buf : List ℕ) (info : ProxyInfo) (n : ℕ) : Type 0 where
  pub line_end : ℕ
  pub found : find_crlf (window buf) ≡ some line_end
  pub total : n ≡ line_end + 2
  pub line : parse_line (take line_end buf) ≡ ok info

pub parse_v1-ParsedV1 :
    (buf : List ℕ) (info : ProxyInfo) (n : ℕ) → parse_v1 buf ≡ ok (info, n) → ParsedV1 buf info n
parse_v1-ParsedV1 buf info n h = elim (Option-cases (find_crlf (window buf))) [
  | inl e ↦ absurd (ground (arith, sym (parse_v1_lem buf) ∙ h))
  | inr (i, e) ↦
      let (fits, _) = window-lt buf e in
      let h1 : behind_search (some i) buf ≡ ok (info, n) =
        ap (λ o. behind_search o buf) (sym e) ∙ (sym (parse_v1_lem buf) ∙ h) in
      let h2 =
        rw (slice_lem {E = ParseError} buf 0 i (omega arith) (omega arith), sub_zero i) at h1 in
      let (_, h3) = >>-eq-ok (fail_if (not (is_utf8 (take i buf))) (invalid v1_not_utf8)) _ h2 in
      let (got, lined, h4) = >>=-eq-ok (parse_line (take i buf)) _ h3 in
      let pair : ◌≡◌ {A = ProxyInfo × ℕ} (got, i + 2) (info, n) = ok-injective h4 in
      record {
        line_end = i;
        found = e;
        total = sym (ap (λ p. p.1) pair);
        line = lined ∙ ap (λ p. ok (p.0)) pair;
      }
]

module _ (c : Crc32c) where
  text_cases :
      (buf : List ℕ) (info : ProxyInfo) (n : ℕ)
      → parse_text buf ≡ ok (info, n)
      → parse_v1 buf ≡ ok (info, n)
  unfolding parse_text
  text_cases buf info n h = ground arith

  binary_cases :
      (buf : List ℕ) (info : ProxyInfo) (n : ℕ)
      → parse_binary c buf ≡ ok (info, n)
      → parse_v2 c buf ≡ ok (info, n)
  unfolding parse_binary
  binary_cases buf info n h = elim (Bool-cases (ltb (length buf) 12)) [
    | inl short ↦ absurd (ground arith)
    | inr long ↦
        let h1 =
          rw (long, slice_lem {E = ParseError} buf 0 12 (omega arith) (ltb_false→le _ _ long)) at
            h in
        ground arith
  ]

  pub parse-cases :
      (buf : List ℕ) (info : ProxyInfo) (n : ℕ)
      → parse c buf ≡ ok (info, n)
      → (parse_v1 buf ≡ ok (info, n)) ⊎ (parse_v2 c buf ≡ ok (info, n))
  unfolding parse
  parse-cases [] info n h = cc
  parse-cases (b ∷ bs) info n h = elim (Bool-cases (b == 0x0d)) [
    | inl e ↦ inr (binary_cases (b ∷ bs) info n (rw e at h))
    | inr e ↦ elim (Bool-cases (b == b'P')) [
      | inl f ↦ inl (text_cases (b ∷ bs) info n (rw (e, f) at h))
      | inr f ↦ absurd (ground (arith, rw (e, f) at h))
    ]
  ]

  pub parse-fits :
      (buf : List ℕ) (info : ProxyInfo) (n : ℕ) → parse c buf ≡ ok (info, n) → n ≤ length buf
  parse-fits buf info n h = elim (parse-cases buf info n h) [
    | inl text ↦
        let p = parse_v1-ParsedV1 buf info n text in
        let (fits, _) = window-lt buf p.found in omega (arith, p.total)
    | inr binary ↦ let p = parse_v2-ParsedV2 c buf info n binary in p.parsed.fits
  ]
