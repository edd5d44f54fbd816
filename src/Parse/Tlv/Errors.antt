-- ===== src/Parse/Tlv/Errors.antt =====
-- The errors of parse/tlv.rs.
use proxy_protocol_rs.Prelude.{
  ℕ, zero, suc, ◌+◌, ◌≤◌, ◌<◌, ◌≡◌, refl, inl, inr, Bool-cases, ltb, ltb_false→le, not, ◌==◌, List,
  [], ◌∷◌, length, be32, Outcome, fail_if, OnErr, OnErr-ok, OnErr-panic, OnErr-stuck, OnErr-err,
  OnErr->>=, OnErr->>, fail_if-OnErr, arith,
}
use proxy_protocol_rs.Types.{SslInfo, Tlvs, tlvs_default}
use proxy_protocol_rs.Error.{ParseError}
use proxy_protocol_rs.Parse.Tlv.{
  malformed, set_ssl_field, parse_ssl_loop, parse_ssl, be32_of, set_crc32c, set_unique_id, set_ssl,
  set_tlv_field, push_raw, parse_tlvs_loop, parse_tlvs,
}
use proxy_protocol_rs.Parse.Tlv.Read.{read_tlv-cases, length-frame}
use proxy_protocol_rs.Parse.Tlv.Ssl.{parse_ssl-long}

-- A malformed TLV that begins between two offsets
abbrev pub MalformedIn : ℕ → ℕ → ParseError → Type 0
MalformedIn from to e = (offset : ℕ) × (e ≡ malformed offset) × (from ≤ offset) × (offset < to)

widen :
    {A : Type 0} (a b a' b' : ℕ) (r : Outcome A ParseError)
    → a' ≤ a
    → b ≤ b'
    → OnErr (MalformedIn a b) r
    → OnErr (MalformedIn a' b') r
widen a b a' b' r p q h = record {
  on_err = λ e k. let (o, same, lo, hi) = h.on_err e k in (o, same, omega arith, omega arith);
}

parse_ssl_loop-Malformed :
    (fuel : ℕ) (s : SslInfo) (bytes : List ℕ) (o : ℕ)
    → OnErr (MalformedIn o (o + length bytes)) (parse_ssl_loop fuel s bytes o)
unfolding parse_ssl_loop
parse_ssl_loop-Malformed fuel s [] o = OnErr-ok s
parse_ssl_loop-Malformed zero s (b ∷ bs) o = OnErr-stuck
parse_ssl_loop-Malformed (suc fuel) s (b ∷ bs) o = elim (read_tlv-cases (b ∷ bs) o) [
  | inl e ↦ rw e (OnErr-err (malformed o) (o, refl, omega arith, omega arith))
  | inr (t, v, rest, f, e) ↦ rw e (
      widen (o + (3 + length v)) (o + (3 + length v) + length rest) o (o + length (b ∷ bs)) _
        (omega arith) (omega (arith, length-frame f))
        (parse_ssl_loop-Malformed fuel (set_ssl_field t v s) rest (o + (3 + length v))))
]

parse_ssl-Malformed :
    (v : List ℕ) (o : ℕ) → 5 ≤ length v → OnErr (MalformedIn o (o + length v)) (parse_ssl v o)
parse_ssl-Malformed (a ∷ b ∷ c ∷ d ∷ e ∷ bs) o h = rw (parse_ssl-long a b c d e bs o) (
    widen (o + 5) (o + 5 + length bs) o (o + length (a ∷ b ∷ c ∷ d ∷ e ∷ bs)) _ (omega arith)
      (omega arith) (parse_ssl_loop-Malformed _ _ bs (o + 5)))
parse_ssl-Malformed _ o h = absurd (omega arith)

module _ (v : List ℕ) (o : ℕ) (t : Tlvs) where
  abbrev Here : ParseError → Type 0
  Here e = MalformedIn o (o + (3 + length v)) e

  at_start : Here (malformed o)
  at_start = (o, refl, omega arith, omega arith)

  be32_of-Here : OnErr Here (be32_of v)
  be32_of-Here = never v
    where
      never : (xs : List ℕ) → OnErr Here (be32_of xs)
      never (a ∷ b ∷ c ∷ d ∷ []) = OnErr-ok (be32 a b c d)
      never _ = OnErr-panic

  set_crc32c-Here : OnErr Here (set_crc32c v o t)
  unfolding set_crc32c
  set_crc32c-Here =
      OnErr->> (fail_if (not (length v == 4)) (malformed o)) _
        (fail_if-OnErr (not (length v == 4)) (malformed o) λ q. at_start)
        λ q. OnErr->>= (be32_of v) _ be32_of-Here λ crc e. OnErr-ok _

  set_unique_id-Here : OnErr Here (set_unique_id v o t)
  unfolding set_unique_id
  set_unique_id-Here =
      OnErr->> (fail_if (ltb 128 (length v)) (malformed o)) _
        (fail_if-OnErr (ltb 128 (length v)) (malformed o) λ q. at_start) λ q. OnErr-ok _

  set_ssl-Here : OnErr Here (set_ssl v o t)
  unfolding set_ssl
  set_ssl-Here = elim (Bool-cases (ltb (length v) 5)) [
    | inl short ↦ rw short (OnErr-err (malformed o) at_start)
    | inr long ↦ rw long (
        OnErr->>= (parse_ssl v (o + 3)) _
          (widen (o + 3) (o + 3 + length v) o (o + (3 + length v)) _ (omega arith) (omega arith)
            (parse_ssl-Malformed v (o + 3) (ltb_false→le _ _ long)))
          λ s e. OnErr-ok _)
  ]

  pub set_tlv_field-Here : (k : ℕ) → OnErr Here (set_tlv_field k v o t)
  unfolding set_tlv_field
  set_tlv_field-Here k = elim (Bool-cases (k == 0x01)) [
    | inl e ↦ rw e (OnErr-ok _)
    | inr n1 ↦ elim (Bool-cases (k == 0x02)) [
      | inl e ↦ rw (n1, e) (OnErr-ok _)
      | inr n2 ↦ elim (Bool-cases (k == 0x03)) [
        | inl e ↦ rw (n1, n2, e) set_crc32c-Here
        | inr n3 ↦ elim (Bool-cases (k == 0x04)) [
          | inl e ↦ rw (n1, n2, n3, e) (OnErr-ok t)
          | inr n4 ↦ elim (Bool-cases (k == 0x05)) [
            | inl e ↦ rw (n1, n2, n3, n4, e) set_unique_id-Here
            | inr n5 ↦ elim (Bool-cases (k == 0x20)) [
              | inl e ↦ rw (n1, n2, n3, n4, n5, e) set_ssl-Here
              | inr n6 ↦ elim (Bool-cases (k == 0x30)) [
                | inl e ↦ rw (n1, n2, n3, n4, n5, n6, e) (OnErr-ok _)
                | inr n7 ↦ rw (n1, n2, n3, n4, n5, n6, n7) (OnErr-ok t)
              ]
            ]
          ]
        ]
      ]
    ]
  ]

parse_tlvs_loop-Malformed :
    (fuel : ℕ) (t : Tlvs) (bytes : List ℕ) (o : ℕ)
    → OnErr (MalformedIn o (o + length bytes)) (parse_tlvs_loop fuel t bytes o)
unfolding parse_tlvs_loop
parse_tlvs_loop-Malformed fuel t [] o = OnErr-ok t
parse_tlvs_loop-Malformed zero t (b ∷ bs) o = OnErr-stuck
parse_tlvs_loop-Malformed (suc fuel) t (b ∷ bs) o = elim (read_tlv-cases (b ∷ bs) o) [
  | inl e ↦ rw e (OnErr-err (malformed o) (o, refl, omega arith, omega arith))
  | inr (k, v, rest, f, e) ↦
      let end = o + (3 + length v) in
      let all = o + length (b ∷ bs) in
      rw e (
        OnErr->>= (set_tlv_field k v o (push_raw k v t)) _
          (widen o end o all _ (omega arith) (omega (arith, length-frame f))
            (set_tlv_field-Here v o (push_raw k v t) k))
          λ t' q.
            widen end (end + length rest) o all _ (omega arith) (omega (arith, length-frame f))
              (parse_tlvs_loop-Malformed fuel t' rest end))
]

-- The only error of `parse_tlvs` is a malformed TLV, at an offset inside the bytes.
pub parse_tlvs-Malformed :
    (bytes : List ℕ) → OnErr (MalformedIn 0 (length bytes)) (parse_tlvs bytes)
unfolding parse_tlvs
parse_tlvs-Malformed bytes =
    widen 0 (0 + length bytes) 0 (length bytes) _ (omega arith) (omega arith)
      (parse_tlvs_loop-Malformed (length bytes) tlvs_default bytes 0)
