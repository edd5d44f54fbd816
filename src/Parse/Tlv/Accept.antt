-- ===== src/Parse/Tlv/Accept.antt =====
-- Which TLVs `parse_tlvs` takes: what `match tlv_type` of parse/tlv.rs checks of a value.
use proxy_protocol_rs.Prelude.{
  ℕ, ◌+◌, ◌≤◌, ◌≡◌, refl, ◌∙◌, inl, inr, List, [], ◌∷◌, length, drop, All, All-drop, IsByte,
  Bool-cases, ltb, ltb_false→le, le→ltb, ok, Returns, Returns->>=, be32, arith,
}
use proxy_protocol_rs.Types.{SslInfo, Tlvs}
use proxy_protocol_rs.Parse.Wire.{Entry, wire, Fits}
use proxy_protocol_rs.Parse.Tlv.{parse_ssl, set_crc32c, set_unique_id, set_ssl, set_tlv_field}
use proxy_protocol_rs.Parse.Tlv.Ssl.{
  ssl_fold, ssl_start, parse_ssl-long, parse_ssl_loop-wire, parse_ssl_loop-ok, parse_ssl-Returns,
}
use proxy_protocol_rs.Parse.Tlv.View.{
  kind, alpn, authority, crc32c, noop, unique_id, ssl, netns, other, set_tlv_field-other,
  set_ssl-ok,
}

-- Five bytes, and then TLVs.
abbrev pub IsSslValue : List ℕ → Type 0
IsSslValue v = (5 ≤ length v) × ((es : List Entry) × (drop 5 v ≡ wire es) × All Fits es)

-- A checksum has 4 bytes, a unique ID 128 at most, and TLS information its own form.
abbrev pub IsAcceptable : Entry → Type 0
IsAcceptable (k, v) =
    (k ≡ 0x03 → length v ≡ 4) × (k ≡ 0x05 → length v ≤ 128) × (k ≡ 0x20 → IsSslValue v)

pub parse_ssl-IsSslValue :
    (v : List ℕ) (o : ℕ) {r : SslInfo} → All IsByte v → parse_ssl v o ≡ ok r → IsSslValue v
parse_ssl-IsSslValue (a ∷ b ∷ c ∷ d ∷ e ∷ bs) o w h = (
  omega arith,
  parse_ssl_loop-ok _ _ bs _ (All-drop IsByte 5 (a ∷ b ∷ c ∷ d ∷ e ∷ bs) w)
      (rw (parse_ssl-long a b c d e bs o) at h),
)
parse_ssl-IsSslValue _ o w h = unfold parse_ssl in cc

pub parse_ssl-total : (v : List ℕ) (o : ℕ) → IsSslValue v → (r : SslInfo) × (parse_ssl v o ≡ ok r)
parse_ssl-total (a ∷ b ∷ c ∷ d ∷ e ∷ bs) o (h, (es, q, fits)) = (
  ssl_fold es (ssl_start a (be32 b c d e)),
  parse_ssl-long a b c d e bs o ∙ rw q (parse_ssl_loop-wire es _ _ _ fits (omega arith)),
)
parse_ssl-total _ o (h, w) = absurd (omega arith)

set_crc32c-Returns : (v : List ℕ) (o : ℕ) (t : Tlvs) → Returns (set_crc32c v o t)
unfolding set_crc32c
set_crc32c-Returns (a ∷ b ∷ c ∷ d ∷ []) o t = tt
set_crc32c-Returns _ o t = ground arith

set_ssl-Returns : (v : List ℕ) (o : ℕ) (t : Tlvs) → Returns (set_ssl v o t)
unfolding set_ssl
set_ssl-Returns v o t = elim (Bool-cases (ltb (length v) 5)) [
  | inl e ↦ rw e tt
  | inr e ↦ rw e (Returns->>= _ _ (parse_ssl-Returns v (o + 3) (ltb_false→le _ _ e)) (λ s _. tt))
]

-- No arm panics: the conversions to arrays and the indexing are behind the checks of the length.
pub set_tlv_field-Returns :
    (k : ℕ) (v : List ℕ) (o : ℕ) (t : Tlvs) → Returns (set_tlv_field k v o t)
set_tlv_field-Returns k v o t = elim (kind k) [
  | alpn e ↦ rw e (unfold set_tlv_field in tt)
  | authority e ↦ rw e (unfold set_tlv_field in tt)
  | crc32c e ↦ rw e (unfold set_tlv_field in set_crc32c-Returns v o t)
  | noop e ↦ rw e (unfold set_tlv_field in tt)
  | unique_id e ↦ rw e (unfold set_tlv_field set_unique_id in ground arith)
  | ssl e ↦ rw e (unfold set_tlv_field in set_ssl-Returns v o t)
  | netns e ↦ rw e (unfold set_tlv_field in tt)
  | other n1 n2 n3 n4 n5 n6 n7 ↦ rw (set_tlv_field-other k v o t n1 n2 n3 n4 n5 n6 n7) tt
]

crc_accepted : (v : List ℕ) (o : ℕ) (t : Tlvs) {t' : Tlvs} → set_crc32c v o t ≡ ok t' → length v ≡ 4
unfolding set_crc32c
crc_accepted v o t h = ground arith

id_accepted :
    (v : List ℕ) (o : ℕ) (t : Tlvs) {t' : Tlvs} → set_unique_id v o t ≡ ok t' → length v ≤ 128
unfolding set_unique_id
id_accepted v o t h = ground arith

pub set_tlv_field-IsAcceptable :
    (k : ℕ) (v : List ℕ) (o : ℕ) (t : Tlvs) {t' : Tlvs}
    → All IsByte v
    → set_tlv_field k v o t ≡ ok t'
    → IsAcceptable (k, v)
unfolding set_tlv_field
set_tlv_field-IsAcceptable k v o t {t'} w h = (
  λ e. crc_accepted v o t (rw e at h),
  λ e. id_accepted v o t (rw e at h),
  λ e. let (s, parsed, _) = set_ssl-ok v o t (rw e at h) in parse_ssl-IsSslValue v (o + 3) w parsed,
)

set_crc32c-total :
    (v : List ℕ) (o : ℕ) (t : Tlvs) → length v ≡ 4 → (t' : Tlvs) × (set_crc32c v o t ≡ ok t')
unfolding set_crc32c
set_crc32c-total (a ∷ b ∷ c ∷ d ∷ []) o t h = (_, refl)
set_crc32c-total _ o t h = absurd (omega arith)

set_unique_id-total :
    (v : List ℕ) (o : ℕ) (t : Tlvs) → length v ≤ 128 → (t' : Tlvs) × (set_unique_id v o t ≡ ok t')
unfolding set_unique_id
set_unique_id-total v o t h = rw (le→ltb 128 (length v) h) (_, refl)

set_ssl-total :
    (v : List ℕ) (o : ℕ) (t : Tlvs) → IsSslValue v → (t' : Tlvs) × (set_ssl v o t ≡ ok t')
unfolding set_ssl
set_ssl-total v o t (h, w) =
    let (r, e) = parse_ssl-total v (o + 3) (h, w) in rw (le→ltb (length v) 5 h, e) (_, refl)

pub set_tlv_field-total :
    (k : ℕ) (v : List ℕ) (o : ℕ) (t : Tlvs)
    → IsAcceptable (k, v)
    → (t' : Tlvs) × (set_tlv_field k v o t ≡ ok t')
unfolding set_tlv_field
set_tlv_field-total k v o t a = elim (kind k) [
  | alpn e ↦ rw e (_, refl)
  | authority e ↦ rw e (_, refl)
  | crc32c e ↦ rw e (set_crc32c-total v o t (a.0 e))
  | noop e ↦ rw e (_, refl)
  | unique_id e ↦ rw e (set_unique_id-total v o t (a.1 e))
  | ssl e ↦ rw e (set_ssl-total v o t (a.2 e))
  | netns e ↦ rw e (_, refl)
  | other n1 n2 n3 n4 n5 n6 n7 ↦ (_, set_tlv_field-other k v o t n1 n2 n3 n4 n5 n6 n7)
]
