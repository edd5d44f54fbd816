-- ===== src/Vendor.antt =====
-- The vendors' TLVs of vendor/mod.rs, vendor/aws.rs and vendor/azure.rs.
use proxy_protocol_rs.Prelude.{
  ℕ, ◌+◌, ◌*◌, Bool, true, false, ◌&&◌, ◌||◌, ◌==◌, not, if◌then◌else◌, Option, none, some,
  map_option, List, [], ◌∷◌, length, le32, be32, Outcome, ok, err, panic, ◌>>=◌, ◌>>◌, fail_if,
  index, slice_from,
}
use proxy_protocol_rs.Std.Utf8.{is_utf8, within}
use proxy_protocol_rs.Types.{Tlvs}
use proxy_protocol_rs.Error.{
  TlvParseError, malformed_sub_tlv, invalid_value, vpce_not_utf8, vpce_characters, link_id_length,
  connection_id_length,
}
pub mod Total
pub mod Aws
pub mod Gcp
pub mod Azure

pub record AwsTlvs : Type 0 where
  pub vpc_endpoint_id : Option (List ℕ)
  pub raw : List (ℕ × List ℕ)

pub record AzureTlvs : Type 0 where
  pub private_endpoint_link_id : Option ℕ
  pub raw : List (ℕ × List ℕ)

pub record GcpTlvs : Type 0 where
  pub psc_connection_id : ℕ

-- `b.is_ascii_alphanumeric() || b == b'-'`
abbrev pub is_vpce_byte : ℕ → Bool
is_vpce_byte b = within 0x30 0x39 b || (within 0x41 0x5a b || (within 0x61 0x7a b || b == b'-'))

abbrev pub is_valid_vpce_id : List ℕ → Bool
is_valid_vpce_id [] = true
is_valid_vpce_id (b ∷ bs) = is_vpce_byte b && is_valid_vpce_id bs

-- `data.is_empty()`
abbrev pub is_empty : List ℕ → Bool
is_empty [] = true
is_empty (b ∷ bs) = false

-- `if sub_type == PP2_SUBTYPE_AWS_VPCE_ID { ... }`
abbrev pub vpce_of : ℕ → List ℕ → Outcome (Option (List ℕ)) TlvParseError
vpce_of sub_type value =
    if sub_type == 0x01
    then (do
      fail_if (not (is_utf8 value)) (invalid_value vpce_not_utf8)
      fail_if (not (is_valid_vpce_id value)) (invalid_value (vpce_characters value))
      ok (some value))
    else ok none

unfoldable pub parse_aws_tlv : List ℕ → Outcome AwsTlvs TlvParseError
parse_aws_tlv tlv = do
  fail_if (is_empty tlv) (malformed_sub_tlv 0)
  sub_type ← index tlv 0
  value ← slice_from tlv 1
  vpce ← vpce_of sub_type value
  ok (record { vpc_endpoint_id = vpce; raw = (sub_type, value) ∷ [] })

abbrev pub link_id_of : ℕ → List ℕ → Outcome (Option ℕ) TlvParseError
link_id_of sub_type value =
    if sub_type == 0x01
    then (do
      fail_if (not (length value == 4)) (invalid_value (link_id_length (length value)))
      a ← index value 0
      b ← index value 1
      c ← index value 2
      d ← index value 3
      ok (some (le32 a b c d)))
    else ok none

unfoldable pub parse_azure_tlv : List ℕ → Outcome AzureTlvs TlvParseError
parse_azure_tlv tlv = do
  fail_if (is_empty tlv) (malformed_sub_tlv 0)
  sub_type ← index tlv 0
  value ← slice_from tlv 1
  link_id ← link_id_of sub_type value
  ok (record { private_endpoint_link_id = link_id; raw = (sub_type, value) ∷ [] })

-- `u64::from_be_bytes(value.try_into().unwrap())`: other than eight bytes panic.
abbrev pub be64_of : List ℕ → Outcome ℕ TlvParseError
be64_of (a ∷ b ∷ c ∷ d ∷ e ∷ f ∷ g ∷ h ∷ []) = ok (be32 a b c d * 4294967296 + be32 e f g h)
be64_of _ = panic

unfoldable pub parse_gcp_tlv : List ℕ → Outcome GcpTlvs TlvParseError
parse_gcp_tlv value = do
  fail_if (not (length value == 8)) (invalid_value (connection_id_length (length value)))
  id ← be64_of value
  ok (record { psc_connection_id = id })

-- `raw.iter().find(|(t, _)| *t == k).map(|(_, value)| value)`
abbrev pub find_raw : ℕ → List (ℕ × List ℕ) → Option (List ℕ)
find_raw k [] = none
find_raw k ((t, v) ∷ es) = if t == k then some v else find_raw k es

unfoldable pub aws : Tlvs → Option (Outcome AwsTlvs TlvParseError)
unfolding parse_aws_tlv
aws t = map_option parse_aws_tlv (find_raw 0xea t.raw)

unfoldable pub azure : Tlvs → Option (Outcome AzureTlvs TlvParseError)
unfolding parse_azure_tlv
azure t = map_option parse_azure_tlv (find_raw 0xee t.raw)

unfoldable pub gcp : Tlvs → Option (Outcome GcpTlvs TlvParseError)
unfolding parse_gcp_tlv
gcp t = map_option parse_gcp_tlv (find_raw 0xe0 t.raw)
