-- ===== src/Parse/Tlv/Read.antt =====
-- The front of the loops of parse/tlv.rs: one TLV is read, or the bytes do not hold one.
use proxy_protocol_rs.Prelude.{
  ℕ, suc, ◌+◌, ◌≤◌, ◌<◌, ◌≡◌, subst, All, All-split, IsByte, ◌/◌, ◌%◌, refl, sym, ap, ◌∙◌, ap, ◌⊎◌,
  inl, inr, List, [], ◌∷◌, ◌++◌, length, take, drop, length-append, length-take, take-append,
  drop-append, take-append-drop, be16, ltb, Bool-cases, ltb→lt, ltb_false→le, ok, err, arith,
}
use proxy_protocol_rs.Parse.Tlv.{read_tlv, malformed}

-- The bytes of one TLV: its type, the two bytes of its length and its value, before `rest`.
pub record Framed (bytes : List ℕ) (tlv_type : ℕ) (value rest : List ℕ) : Type 0 where
  pub hi : ℕ
  pub lo : ℕ
  pub frame : bytes ≡ tlv_type ∷ hi ∷ lo ∷ (value ++ rest)
  pub len : length value ≡ be16 hi lo

three_plus : (n : ℕ) → 3 + n ≡ suc (suc (suc n))
three_plus n = omega arith

read_tlv-long :
    (t hi lo : ℕ) (bs : List ℕ) (offset : ℕ)
    → be16 hi lo ≤ length bs
    → read_tlv (t ∷ hi ∷ lo ∷ bs) offset ≡ ok (t, take (be16 hi lo) bs, drop (be16 hi lo) bs)
unfolding read_tlv
read_tlv-long t hi lo bs offset h = rw (three_plus (be16 hi lo)) (ground arith)

read_tlv-short :
    (t hi lo : ℕ) (bs : List ℕ) (offset : ℕ)
    → length bs < be16 hi lo
    → read_tlv (t ∷ hi ∷ lo ∷ bs) offset ≡ err (malformed offset)
unfolding read_tlv
read_tlv-short t hi lo bs offset h = ground arith

-- Whole TLVs are read.
pub read_tlv-frame :
    (tlv_type hi lo : ℕ) (value rest : List ℕ) (offset : ℕ)
    → length value ≡ be16 hi lo
    → read_tlv (tlv_type ∷ hi ∷ lo ∷ (value ++ rest)) offset ≡ ok (tlv_type, value, rest)
read_tlv-frame t hi lo value rest offset h = rw (
  read_tlv-long t hi lo (value ++ rest) offset (omega (arith, length-append value rest)),
  take-append value rest (be16 hi lo) (sym h),
  drop-append value rest (be16 hi lo) (sym h),
)

pub read_tlv-cases :
    (bytes : List ℕ) (offset : ℕ)
    → (read_tlv bytes offset ≡ err (malformed offset))
      ⊎ ((t : ℕ) × (value : List ℕ) × (rest : List ℕ) × Framed bytes t value rest
          × (read_tlv bytes offset ≡ ok (t, value, rest)))
unfolding read_tlv
read_tlv-cases [] offset = inl refl
read_tlv-cases (t ∷ []) offset = inl refl
read_tlv-cases (t ∷ hi ∷ []) offset = inl refl
read_tlv-cases (t ∷ hi ∷ lo ∷ bs) offset = elim (Bool-cases (ltb (length bs) (be16 hi lo))) [
  | inl short ↦ inl (read_tlv-short t hi lo bs offset (ltb→lt _ _ short))
  | inr fits ↦ inr (
    t,
    take (be16 hi lo) bs,
    drop (be16 hi lo) bs,
    record {
      hi = hi;
      lo = lo;
      frame = rw take-append-drop;
      len = omega (arith, length-take (be16 hi lo) bs, ltb_false→le (length bs) (be16 hi lo) fits);
    },
    read_tlv-long t hi lo bs offset (ltb_false→le _ _ fits),
  )
]

pub length-frame :
    {bytes : List ℕ} {t : ℕ} {value rest : List ℕ}
    → Framed bytes t value rest
    → length bytes ≡ 3 + (length value + length rest)
length-frame {value = value} {rest = rest} f =
    omega (arith, ap length f.frame, length-append value rest)

-- What is read does not depend on the offset, which shows in the error only.
pub read_tlv-offset :
    (bytes : List ℕ) (o p : ℕ) {r : ℕ × List ℕ × List ℕ}
    → read_tlv bytes o ≡ ok r
    → read_tlv bytes p ≡ ok r
read_tlv-offset bytes o p h = elim (read_tlv-cases bytes o) [
  | inl e ↦ cc
  | inr (t, v, rest, f, e) ↦ rw f.frame (read_tlv-frame t f.hi f.lo v rest p f.len ∙ (sym e ∙ h))
]

-- A TLV in the wire form is read.
pub read_tlv-wire :
    (t : ℕ) (v rest : List ℕ) (offset : ℕ)
    → length v < 65536
    → read_tlv (t ∷ (length v / 256) ∷ (length v % 256) ∷ (v ++ rest)) offset ≡ ok (t, v, rest)
read_tlv-wire t v rest offset h =
    read_tlv-frame t (length v / 256) (length v % 256) v rest offset (omega arith)

-- On bytes, what is read stands in the wire form.
pub record WireFramed (bytes : List ℕ) (t : ℕ) (v rest : List ℕ) : Type 0 where
  pub frame : bytes ≡ t ∷ (length v / 256) ∷ (length v % 256) ∷ (v ++ rest)
  pub fits : length v < 65536
  pub type_byte : IsByte t
  pub value_bytes : All IsByte v
  pub rest_bytes : All IsByte rest

pub frame-wire :
    {bytes : List ℕ} {t : ℕ} {v rest : List ℕ}
    → Framed bytes t v rest
    → All IsByte bytes
    → WireFramed bytes t v rest
frame-wire {t = t} {v = v} {rest = r} f b =
    let (bt, more) : IsByte t × All IsByte (f.hi ∷ f.lo ∷ (v ++ r)) =
      subst (All IsByte) f.frame b in
    let (bv, br) = All-split IsByte v r more.1.1 in
    let hi : f.hi ≡ length v / 256 = omega (arith, f.len) in
    let lo : f.lo ≡ length v % 256 = omega (arith, f.len) in
    record {
      frame = f.frame ∙ cc (hi, lo);
      fits = omega (arith, f.len);
      type_byte = bt;
      value_bytes = bv;
      rest_bytes = br;
    }
