-- ===== src/Vendor/Aws.antt =====
-- The TLV of AWS, in vendor/aws.rs.
use proxy_protocol_rs.Prelude.{
  ℕ, ◌>>=◌, slice_from_lem, ◌≤◌, ◌<◌, ◌≡◌, refl, sym, ap, ◌∙◌, ◌⊎◌, inl, inr, ◌↔◌, Bool, true,
  false, ◌||◌, ==_iff, le→leb, Bool-cases, some, List, [], ◌∷◌, All, ok, ok-injective, arith,
}
use proxy_protocol_rs.Std.Ascii.{ascii-is_utf8}
use proxy_protocol_rs.Std.Utf8.{is_utf8, within}
use proxy_protocol_rs.Error.{TlvParseError}
use proxy_protocol_rs.Vendor.{vpce_of, AwsTlvs, is_vpce_byte, is_valid_vpce_id, parse_aws_tlv}

-- A letter, a digit or a hyphen, in ASCII
abbrev pub IsVpceByte : ℕ → Type 0
IsVpceByte b =
    ((0x30 ≤ b) × (b ≤ 0x39))
    ⊎ (((0x41 ≤ b) × (b ≤ 0x5a)) ⊎ (((0x61 ≤ b) × (b ≤ 0x7a)) ⊎ (b ≡ 0x2d)))

within_le : (lo hi b : ℕ) → within lo hi b ≡ true → (lo ≤ b) × (b ≤ hi)
within_le lo hi b h = (ground arith, ground arith)

le_within : (lo hi b : ℕ) → (lo ≤ b) × (b ≤ hi) → within lo hi b ≡ true
le_within lo hi b h = rw (le→leb lo b h.0, le→leb b hi h.1)

is_vpce_byte-IsVpceByte : (b : ℕ) → is_vpce_byte b ≡ true → IsVpceByte b
is_vpce_byte-IsVpceByte b h = elim (Bool-cases (within 0x30 0x39 b)) [
  | inl e ↦ inl (within_le 0x30 0x39 b e)
  | inr e ↦ elim (Bool-cases (within 0x41 0x5a b)) [
    | inl f ↦ inr (inl (within_le 0x41 0x5a b f))
    | inr f ↦ elim (Bool-cases (within 0x61 0x7a b)) [
      | inl g ↦ inr (inr (inl (within_le 0x61 0x7a b g)))
      | inr g ↦ inr (inr (inr ((==_iff b 0x2d).0 (rw (e, f, g) at h))))
    ]
  ]
]

or_true : (a : Bool) → a || true ≡ true
or_true true = refl
or_true false = refl

IsVpceByte-is_vpce_byte : (b : ℕ) → IsVpceByte b → is_vpce_byte b ≡ true
IsVpceByte-is_vpce_byte b h = elim h [
  | inl p ↦ rw (le_within 0x30 0x39 b p)
  | inr q ↦ elim q [
    | inl p ↦ rw (le_within 0x41 0x5a b p) (or_true (within 0x30 0x39 b))
    | inr r ↦ elim r [
      | inl p ↦
          rw (le_within 0x61 0x7a b p, or_true (within 0x41 0x5a b)) (or_true (within 0x30 0x39 b))
      | inr p ↦
          rw ((==_iff b 0x2d).1 p, or_true (within 0x61 0x7a b), or_true (within 0x41 0x5a b))
            (or_true (within 0x30 0x39 b))
    ]
  ]
]

IsVpceByte-lt : (b : ℕ) → IsVpceByte b → b < 0x80
IsVpceByte-lt b h = elim h [
  | inl p ↦ omega arith
  | inr q ↦ elim q [
    | inl p ↦ omega arith
    | inr r ↦ elim r [ inl p ↦ omega arith | inr p ↦ omega arith ]
  ]
]

valid-All : (v : List ℕ) → is_valid_vpce_id v ≡ true → All IsVpceByte v
valid-All [] h = tt
valid-All (b ∷ bs) h = elim (Bool-cases (is_vpce_byte b)) [
  | inl e ↦ (is_vpce_byte-IsVpceByte b e, valid-All bs (rw e at h))
  | inr e ↦ absurd (ground (arith, rw e at h))
]

All-valid : (v : List ℕ) → All IsVpceByte v → is_valid_vpce_id v ≡ true
All-valid [] h = refl
All-valid (b ∷ bs) h = rw (IsVpceByte-is_vpce_byte b h.0) (All-valid bs h.1)

IsVpceByte-Ascii : (v : List ℕ) → All IsVpceByte v → All (λ b. b < 0x80) v
IsVpceByte-Ascii [] a = tt
IsVpceByte-Ascii (b ∷ bs) a = (IsVpceByte-lt b a.0, IsVpceByte-Ascii bs a.1)

-- Behind the test for emptiness
pub parse_aws_tlv_lem :
    (k : ℕ) (v : List ℕ)
    → parse_aws_tlv (k ∷ v)
      ≡ (vpce_of k v >>= λ vpce. ok (record { vpc_endpoint_id = vpce; raw = (k, v) ∷ [] }))
unfolding parse_aws_tlv
parse_aws_tlv_lem k v = rw (slice_from_lem {E = TlvParseError} (k ∷ v) 1 (omega arith))

abbrev vpce_result : List ℕ → AwsTlvs
vpce_result v = record { vpc_endpoint_id = some v; raw = (1, v) ∷ [] }

aws_found :
    (v : List ℕ) {r : AwsTlvs}
    → parse_aws_tlv (1 ∷ v) ≡ ok r
    → All IsVpceByte v × (r ≡ vpce_result v)
aws_found v {r} ran =
    let h = sym (parse_aws_tlv_lem 1 v) ∙ ran in
    elim (Bool-cases (is_utf8 v)) [
      | inl e ↦ elim (Bool-cases (is_valid_vpce_id v)) [
        | inl g ↦ (valid-All v g, sym (ok-injective (rw (e, g) at h)))
        | inr g ↦ absurd (ground (arith, rw (e, g) at h))
      ]
      | inr e ↦ absurd (ground (arith, rw e at h))
    ]

-- An endpoint ID of AWS, the value behind the sub-type 1, is accepted exactly if each of its bytes is
-- an ASCII letter, a digit or a hyphen, and then it is the ID unchanged.
pub parse_aws_tlv-IsVpceByte :
    (v : List ℕ) (r : AwsTlvs)
    → (parse_aws_tlv (1 ∷ v) ≡ ok r)
      ↔ (All IsVpceByte v × (r ≡ record { vpc_endpoint_id = some v; raw = (1, v) ∷ [] }))
parse_aws_tlv-IsVpceByte v r = (
  λ h. aws_found v h,
  λ p.
      rw (parse_aws_tlv_lem 1 v, ascii-is_utf8 v (IsVpceByte-Ascii v p.0), All-valid v p.0)
        (ap ok (sym p.1)),
)
