-- ===== src/Builder/Header/Plain.antt =====
-- The TLVs that a caller may add to a v2 header of builder.rs, next to its checksum.
use proxy_protocol_rs.Prelude.{
  ℕ, ◌/◌, ◌%◌, ◌^◌, ◌<◌, ◌≡◌, ◌≢◌, refl, ap, Bool, true, false, List, [], ◌∷◌, ◌++◌, All, to_be32,
  be32, none, some, arith,
}
use proxy_protocol_rs.Parse.Wire.{Entry, Fits, last_of}
use proxy_protocol_rs.Parse.Tlv.View.{crc_of}
use proxy_protocol_rs.Parse.Tlv.Accept.{IsAcceptable}
use proxy_protocol_rs.Parse.V2.Zeroed.{zero_crc}
use proxy_protocol_rs.Builder.Header.Shape.{crc_entries}

-- The TLV is no checksum.
abbrev pub IsNoCrc : Entry → Type 0
IsNoCrc (k, v) = k ≢ 0x03

-- The TLVs that a caller may add: they fit, they are acceptable, and none is a checksum.
abbrev pub IsPlain : Entry → Type 0
IsPlain e = Fits e × IsAcceptable e × IsNoCrc e

pub plain-Fits : (es : List Entry) → All IsPlain es → All Fits es
plain-Fits [] p = tt
plain-Fits (e ∷ es) p = (p.0.0, plain-Fits es p.1)

pub plain-IsAcceptable : (es : List Entry) → All IsPlain es → All IsAcceptable es
plain-IsAcceptable [] p = tt
plain-IsAcceptable (e ∷ es) p = (p.0.1, plain-IsAcceptable es p.1)

pub crc_entries-Fits : (b : Bool) (sum : ℕ) → All Fits (crc_entries b sum)
crc_entries-Fits true sum = (omega arith, tt)
crc_entries-Fits false sum = tt

pub crc_entries-IsAcceptable : (b : Bool) (sum : ℕ) → All IsAcceptable (crc_entries b sum)
crc_entries-IsAcceptable true sum = ((λ e. refl, λ e. omega arith, λ e. absurd (omega arith)), tt)
crc_entries-IsAcceptable false sum = tt

-- Zeroing finds the checksum at the end.
pub zero_crc-plain :
    (es : List Entry) (sum : ℕ)
    → All IsPlain es
    → zero_crc (es ++ crc_entries true sum) ≡ es ++ crc_entries true 0
zero_crc-plain [] sum p = refl
zero_crc-plain ((k, v) ∷ es) sum p = ground (arith, p.0.2, zero_crc-plain es sum p.1)

pub last_crc-plain : (es : List Entry) → All IsPlain es → last_of 0x03 es ≡ none
last_crc-plain [] p = refl
last_crc-plain ((k, v) ∷ es) p = ground (arith, p.0.2, last_crc-plain es p.1)

pub crc_of-to_be32 : (sum : ℕ) → sum < 2 ^ 32 → crc_of (to_be32 sum) ≡ some sum
crc_of-to_be32 sum h =
    let e : be32 (sum / 16777216 % 256) (sum / 65536 % 256) (sum / 256 % 256) (sum % 256) ≡ sum =
      omega arith in
    ap some e
