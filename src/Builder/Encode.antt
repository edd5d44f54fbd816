-- ===== src/Builder/Encode.antt =====
-- builder.rs: how a TLV is written, and `copy_from_slice`.
use proxy_protocol_rs.Prelude.{
  ℕ, ◌+◌, ◌%◌, leb, if◌then◌else◌, List, [], ◌∷◌, ◌++◌, length, take, drop, to_be16, Outcome, ok,
  panic, ◌>>=◌, ◌>>◌, assert,
}

-- `u16::MAX as usize`
abbrev pub u16_max : ℕ
u16_max = 65535

-- `buf[at..at + src.len()].copy_from_slice(src)`, which panics out of bounds.
abbrev pub copy_at : List ℕ → ℕ → List ℕ → Outcome (List ℕ) ⊥
copy_at buf at src =
    if leb (at + length src) (length buf)
    then ok (take at buf ++ (src ++ drop (at + length src) buf))
    else panic

-- The type, the length as a `u16` and the value, appended to `buf`: the body of the loop of
-- `build_v2` over the TLVs, and `encode_sub_tlv`.
unfoldable pub encode_tlv : List ℕ → ℕ → List ℕ → Outcome (List ℕ) ⊥
encode_tlv buf type_byte value = do
  assert (leb (length value) u16_max)
  ok (buf ++ ((type_byte ∷ to_be16 (length value % 65536)) ++ value))

-- `for (tlv_type, value) in &self.tlv_entries { ... }`
unfoldable pub encode_tlvs : List ℕ → List (ℕ × List ℕ) → Outcome (List ℕ) ⊥
encode_tlvs buf [] = ok buf
encode_tlvs buf ((tlv_type, value) ∷ entries) = do
  buf' ← encode_tlv buf tlv_type value
  encode_tlvs buf' entries
