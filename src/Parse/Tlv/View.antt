-- ===== src/Parse/Tlv/View.antt =====
-- What parse/tlv.rs extracts, in terms of the raw list.
use proxy_protocol_rs.Prelude.{
  ℕ, ◌+◌, ◌≡◌, ◌≢◌, refl, inl, inr, ◌==◌, ltb, if◌then◌else◌, Option, none, some, map_option,
  and_then, List, [], ◌∷◌, ◌++◌, length, Bool-cases, ◌>>=◌, >>=-eq-ok, Outcome, ok, err, panic,
  stuck, arith,
}
use native.Mathlib.Decide.{ℕ_discrete}
use proxy_protocol_rs.Types.{SslInfo, Tlvs, tlvs_default}
use proxy_protocol_rs.Error.{ParseError}
use proxy_protocol_rs.Parse.Wire.{last_of, last_of-snoc}
use proxy_protocol_rs.Parse.Tlv.{
  bytes_to_string, be32_of, parse_ssl, set_crc32c, set_unique_id, set_ssl, set_tlv_field, push_raw,
}
use proxy_protocol_rs.Parse.Tlv.Ssl.{parse_ssl-offset}

abbrev pub value_of : {A : Type 0} → Outcome A ParseError → Option A
value_of (ok a) = some a
value_of (err e) = none
value_of panic = none
value_of stuck = none

-- The TLS information in a value, wherever it stands in the header.
abbrev pub ssl_of : List ℕ → Option SslInfo
ssl_of v = value_of (parse_ssl v 0)

abbrev pub crc_of : List ℕ → Option ℕ
crc_of v = value_of (be32_of v)

pub record View (t : Tlvs) : Type 0 where
  pub alpn : t.alpn ≡ last_of 0x01 t.raw
  pub authority : t.authority ≡ map_option bytes_to_string (last_of 0x02 t.raw)
  pub crc32c : t.crc32c ≡ and_then (last_of 0x03 t.raw) crc_of
  pub unique_id : t.unique_id ≡ last_of 0x05 t.raw
  pub ssl : t.ssl ≡ and_then (last_of 0x20 t.raw) ssl_of
  pub netns : t.netns ≡ map_option bytes_to_string (last_of 0x30 t.raw)

pub default-View : View tlvs_default
default-View = record {
  alpn = refl;
  authority = refl;
  crc32c = refl;
  unique_id = refl;
  ssl = refl;
  netns = refl;
}

-- The arms of `match tlv_type`.
pub data Kind (k : ℕ) : Type 0 where
  alpn : k ≡ 0x01 → Kind k
  authority : k ≡ 0x02 → Kind k
  crc32c : k ≡ 0x03 → Kind k
  noop : k ≡ 0x04 → Kind k
  unique_id : k ≡ 0x05 → Kind k
  ssl : k ≡ 0x20 → Kind k
  netns : k ≡ 0x30 → Kind k
  other :
      (k ≢ 0x01)
      → (k ≢ 0x02)
      → (k ≢ 0x03)
      → (k ≢ 0x04)
      → (k ≢ 0x05)
      → (k ≢ 0x20)
      → (k ≢ 0x30)
      → Kind k

pub kind : (k : ℕ) → Kind k
kind k = elim (ℕ_discrete k 0x01) [
  | yes e ↦ alpn e
  | no n1 ↦ elim (ℕ_discrete k 0x02) [
    | yes e ↦ authority e
    | no n2 ↦ elim (ℕ_discrete k 0x03) [
      | yes e ↦ crc32c e
      | no n3 ↦ elim (ℕ_discrete k 0x04) [
        | yes e ↦ noop e
        | no n4 ↦ elim (ℕ_discrete k 0x05) [
          | yes e ↦ unique_id e
          | no n5 ↦ elim (ℕ_discrete k 0x20) [
            | yes e ↦ ssl e
            | no n6 ↦ elim (ℕ_discrete k 0x30) [
              | yes e ↦ netns e
              | no n7 ↦ other n1 n2 n3 n4 n5 n6 n7
            ]
          ]
        ]
      ]
    ]
  ]
]

pub set_tlv_field-other :
    (k : ℕ) (v : List ℕ) (offset : ℕ) (t : Tlvs)
    → k ≢ 0x01
    → k ≢ 0x02
    → k ≢ 0x03
    → k ≢ 0x04
    → k ≢ 0x05
    → k ≢ 0x20
    → k ≢ 0x30
    → set_tlv_field k v offset t ≡ ok t
unfolding set_tlv_field
set_tlv_field-other k v offset t n1 n2 n3 n4 n5 n6 n7 = ground arith

pub set_ssl-ok :
    (v : List ℕ) (offset : ℕ) (t : Tlvs) {t' : Tlvs}
    → set_ssl v offset t ≡ ok t'
    → (s : SslInfo) × (parse_ssl v (offset + 3) ≡ ok s) × (t' ≡ record t { ssl = some s })
unfolding set_ssl
set_ssl-ok v offset t {t'} h = elim (Bool-cases (ltb (length v) 5)) [
  | inl e ↦ cc e
  | inr e ↦
      let h' : (parse_ssl v (offset + 3) >>= λ s. ok (record t { ssl = some s })) ≡ ok t' = cc e in
      let (s, parsed, q) = >>=-eq-ok (parse_ssl v (offset + 3)) _ h' in (s, parsed, ground arith)
]

module _ (v : List ℕ) (offset : ℕ) (t t' : Tlvs) (w : View t) where
  abbrev pub FieldView : ℕ → Type 0
  FieldView k =
      set_tlv_field k v offset (push_raw k v t) ≡ ok t'
      → View t' × (t'.raw ≡ t.raw ++ ((k, v) ∷ []))

  snoc :
      (k j : ℕ) → last_of j (t.raw ++ ((k, v) ∷ [])) ≡ (if k == j then some v else last_of j t.raw)
  snoc k j = last_of-snoc j k v t.raw

  alpn_View : FieldView 0x01
  unfolding set_tlv_field
  alpn_View h = ground (arith, snoc 1 1, snoc 1 2, snoc 1 3, snoc 1 5, snoc 1 0x20, snoc 1 0x30)

  authority_View : FieldView 0x02
  unfolding set_tlv_field
  authority_View h =
      ground (arith, snoc 2 1, snoc 2 2, snoc 2 3, snoc 2 5, snoc 2 0x20, snoc 2 0x30)

  crc32c_View : FieldView 0x03
  unfolding set_tlv_field set_crc32c
  crc32c_View h = ground (arith, snoc 3 1, snoc 3 2, snoc 3 3, snoc 3 5, snoc 3 0x20, snoc 3 0x30)

  unique_id_View : FieldView 0x05
  unfolding set_tlv_field set_unique_id
  unique_id_View h =
      ground (arith, snoc 5 1, snoc 5 2, snoc 5 3, snoc 5 5, snoc 5 0x20, snoc 5 0x30)

  netns_View : FieldView 0x30
  unfolding set_tlv_field
  netns_View h =
      ground
        (arith, snoc 0x30 1, snoc 0x30 2, snoc 0x30 3, snoc 0x30 5, snoc 0x30 0x20, snoc 0x30 0x30)

  ssl_field_View :
      (s : SslInfo)
      → ssl_of v ≡ some s
      → let u = record (push_raw 0x20 v t) { ssl = some s } in
        View u × (u.raw ≡ t.raw ++ ((0x20, v) ∷ []))
  ssl_field_View s e =
      ground (
        arith,
        e,
        snoc 0x20 1,
        snoc 0x20 2,
        snoc 0x20 3,
        snoc 0x20 5,
        snoc 0x20 0x20,
        snoc 0x20 0x30,
      )

  ssl_View : FieldView 0x20
  unfolding set_tlv_field
  ssl_View h =
      let (s, parsed, e) = set_ssl-ok v offset (push_raw 0x20 v t) h in
      rw e (ssl_field_View s (rw (parse_ssl-offset v (offset + 3) parsed)))

  other_View :
      (k : ℕ)
      → set_tlv_field k v offset (push_raw k v t) ≡ ok (push_raw k v t)
      → k ≢ 0x01
      → k ≢ 0x02
      → k ≢ 0x03
      → k ≢ 0x05
      → k ≢ 0x20
      → k ≢ 0x30
      → FieldView k
  other_View k e n1 n2 n3 n5 n6 n7 h =
      ground (arith, snoc k 1, snoc k 2, snoc k 3, snoc k 5, snoc k 0x20, snoc k 0x30)

  pub field_View : (k : ℕ) → FieldView k
  field_View k = elim (kind k) [
    | alpn e ↦ rw e alpn_View
    | authority e ↦ rw e authority_View
    | crc32c e ↦ rw e crc32c_View
    | noop e ↦ rw e (
        other_View 4 (unfold set_tlv_field in refl) (omega arith) (omega arith) (omega arith)
          (omega arith) (omega arith) (omega arith))
    | unique_id e ↦ rw e unique_id_View
    | ssl e ↦ rw e ssl_View
    | netns e ↦ rw e netns_View
    | other n1 n2 n3 n4 n5 n6 n7 ↦
        other_View k (set_tlv_field-other k v offset _ n1 n2 n3 n4 n5 n6 n7) n1 n2 n3 n5 n6 n7
  ]
