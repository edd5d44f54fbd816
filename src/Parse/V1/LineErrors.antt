-- ===== src/Parse/V1/LineErrors.antt =====
-- The errors of parse/v1.rs that are about the line, once it is found.
use proxy_protocol_rs.Prelude.{
  ℕ, ◌≤◌, ◌++◌, ◌≡◌, refl, ap, ◌∙◌, inl, inr, true, false, not, Bool-cases, bytes_eq, bytes_eq_refl,
  none, some, List, [], ◌∷◌, length, fail_if, ok_or, OnErr, OnErr-ok, OnErr-err, OnErr->>=,
  OnErr->>, fail_if-OnErr, ok_or-OnErr, arith,
}
use proxy_protocol_rs.Std.Net.{IpAddr}
use proxy_protocol_rs.Std.IpText.{parse_ip, parse_u16}
use proxy_protocol_rs.Types.{AddressFamily}
use proxy_protocol_rs.Error.{
  ParseError, invalid, invalid_ip, invalid_port, v1_not_utf8, v1_invalid_format,
  v1_unknown_transport,
}
use proxy_protocol_rs.Error.Reasons.{IsExplained, IsLineReason, IsNoAddress}
use proxy_protocol_rs.Parse.V1.{
  bad_format, tcp4, tcp6, is_unknown, unknown_info, family_of_str, family_matches, parse_fields,
  parse_parts, parse_line, splitn,
}
use proxy_protocol_rs.Parse.V1.Splitting.{Joined, splitn-Joined}
use proxy_protocol_rs.Parse.V1.Grammar.{
  OfFamily-family_matches, IsWord, word4, word6, family-IsWord, read_ok, Joined-splitn,
}

-- The error is about the line, and this is wrong with it.
abbrev pub IsLineError : List ℕ → ParseError → Type 0
IsLineError line (invalid r) = IsLineReason line r
IsLineError line _ = ⊥

module _ (line x word a b p q : List ℕ) (j : Joined (x ∷ word ∷ a ∷ b ∷ p ∷ q ∷ []) line) where
  family_of_str-IsLineError : OnErr (IsLineError line) (family_of_str word)
  unfolding family_of_str
  family_of_str-IsLineError = elim (Bool-cases (bytes_eq word tcp4)) [
    | inl e ↦ rw e (OnErr-ok _)
    | inr e4 ↦ elim (Bool-cases (bytes_eq word tcp6)) [
      | inl e ↦ rw (e4, e) (OnErr-ok _)
      | inr e6 ↦
          rw (e4, e6)
            (OnErr-err (invalid (v1_unknown_transport word))
              (x, word, a, b, p, q, j, (refl, no_word word e4 e6)))
    ]
  ]
    where
      no_word :
          (w : List ℕ)
          → bytes_eq w tcp4 ≡ false
          → bytes_eq w tcp6 ≡ false
          → (f : AddressFamily) → IsWord w f
          → ⊥
      no_word _ n4 n6 _ word4 = cc (n4, bytes_eq_refl tcp4)
      no_word _ n4 n6 _ word6 = cc (n6, bytes_eq_refl tcp6)

  module _ (f : AddressFamily) (named : IsWord word f) where
    bad_source : IsNoAddress f a → IsLineReason line (invalid_ip a)
    bad_source n = (x, word, a, b, p, q, j, (f, named, inl (refl, n)))

    bad_destination : IsNoAddress f b → IsLineReason line (invalid_ip b)
    bad_destination n = (x, word, a, b, p, q, j, (f, named, inr (refl, n)))

    no_address : (t : List ℕ) → parse_ip t ≡ none → IsNoAddress f t
    no_address t n ip e o = cc (n, e)

    other_family :
        (t : List ℕ) (ip : IpAddr)
        → parse_ip t ≡ some ip
        → not (family_matches f ip) ≡ true
        → IsNoAddress f t
    other_family t ip e n ip' e' o = other_family_lem (OfFamily-family_matches f ip' o)
      where
        same : ip ≡ ip'
        same = cc (e, e')

        other_family_lem : family_matches f ip' ≡ true → ⊥
        other_family_lem m = cc (ap (λ i. not (family_matches f i)) same, n, m)

    parse_fields-IsLineError : OnErr (IsLineError line) (parse_fields f a b p q)
    unfolding parse_fields
    parse_fields-IsLineError =
        let bad = λ (t : List ℕ). invalid (invalid_ip t) in
        let port = λ (t : List ℕ). invalid (invalid_port t) in
        OnErr->>= (ok_or (parse_ip a) (bad a)) _
          (ok_or-OnErr (parse_ip a) (bad a) λ n. bad_source (no_address a n))
          λ s es.
            OnErr->>= (ok_or (parse_ip b) (bad b)) _
              (ok_or-OnErr (parse_ip b) (bad b) λ n. bad_destination (no_address b n))
              λ d ed.
                OnErr->> (fail_if (not (family_matches f s)) (bad a)) _
                  (fail_if-OnErr (not (family_matches f s)) (bad a)
                    λ n. bad_source (other_family a s (read_ok (parse_ip a) (bad a) es) n))
                  λ k.
                    OnErr->> (fail_if (not (family_matches f d)) (bad b)) _
                      (fail_if-OnErr (not (family_matches f d)) (bad b)
                        λ n. bad_destination (other_family b d (read_ok (parse_ip b) (bad b) ed) n))
                      λ k.
                        OnErr->>= (ok_or (parse_u16 p) (port p)) _
                          (ok_or-OnErr (parse_u16 p) (port p)
                            λ n. (x, word, a, b, p, q, j, (inl refl, n)))
                          λ sp ep.
                            OnErr->>= (ok_or (parse_u16 q) (port q)) _
                              (ok_or-OnErr (parse_u16 q) (port q)
                                λ n. (x, word, a, b, p, q, j, (inr refl, n)))
                              λ dp eq. OnErr-ok _

-- A line whose parts are not six has a wrong format.
module _ (line : List ℕ) where
  parse_parts-IsLineError :
      (ps : List (List ℕ))
      → (length ps ≤ 6 → Joined ps line)
      → ((qs : List (List ℕ)) → Joined qs line → length qs ≡ 6 → length ps ≡ 6)
      → OnErr (IsLineError line) (parse_parts ps)
  unfolding parse_parts
  parse_parts-IsLineError [] j six =
      OnErr-err bad_format λ qs k e. absurd (omega (arith, six qs k e))
  parse_parts-IsLineError (x ∷ []) j six =
      OnErr-err bad_format λ qs k e. absurd (omega (arith, six qs k e))
  parse_parts-IsLineError (x ∷ w ∷ []) j six =
      OnErr-err bad_format λ qs k e. absurd (omega (arith, six qs k e))
  parse_parts-IsLineError (x ∷ w ∷ a ∷ []) j six =
      OnErr-err bad_format λ qs k e. absurd (omega (arith, six qs k e))
  parse_parts-IsLineError (x ∷ w ∷ a ∷ b ∷ []) j six =
      OnErr-err bad_format λ qs k e. absurd (omega (arith, six qs k e))
  parse_parts-IsLineError (x ∷ w ∷ a ∷ b ∷ p ∷ []) j six =
      OnErr-err bad_format λ qs k e. absurd (omega (arith, six qs k e))
  parse_parts-IsLineError (x ∷ w ∷ a ∷ b ∷ p ∷ q ∷ []) j six =
      let joined = j (omega arith) in
      OnErr->>= (family_of_str w) _ (family_of_str-IsLineError line x w a b p q joined)
        λ f e. parse_fields-IsLineError line x w a b p q joined f (family-IsWord w f e)
  parse_parts-IsLineError (x ∷ w ∷ a ∷ b ∷ p ∷ q ∷ y ∷ ys) j six =
      OnErr-err bad_format λ qs k e. absurd (omega (arith, six qs k e))

  pub parse_line-IsLineError : OnErr (IsLineError line) (parse_line line)
  unfolding parse_line
  parse_line-IsLineError = elim (Bool-cases (is_unknown line)) [
    | inl e ↦ rw e (OnErr-ok unknown_info)
    | inr e ↦ rw e (
        parse_parts-IsLineError (splitn 7 line) (splitn-Joined 6 line)
          λ qs k n. ap length (Joined-splitn qs 6 line k (omega (arith, n))) ∙ n)
  ]

  module _ (buf rest : List ℕ) (whole : buf ≡ line ++ (0x0d ∷ 0x0a ∷ rest)) where
    pub IsLineError-IsExplained : (e : ParseError) → IsLineError line e → IsExplained buf e
    IsLineError-IsExplained (invalid v1_not_utf8) h = (line, rest, whole, h)
    IsLineError-IsExplained (invalid v1_invalid_format) h = (line, rest, whole, h)
    IsLineError-IsExplained (invalid (v1_unknown_transport w)) h = (line, rest, whole, h)
    IsLineError-IsExplained (invalid (invalid_ip w)) h = (line, rest, whole, h)
    IsLineError-IsExplained (invalid (invalid_port w)) h = (line, rest, whole, h)
    IsLineError-IsExplained _ h = absurd h
