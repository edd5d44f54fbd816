-- ===== src/Vendor/Total.antt =====
-- Whether the accessors of vendor/mod.rs come back.
use proxy_protocol_rs.Prelude.{
  ℕ, ◌≡◌, Option, none, some, map_option, List, [], ◌∷◌, length, Outcome, Returns, arith,
}
use proxy_protocol_rs.Types.{Tlvs}
use proxy_protocol_rs.Error.{TlvParseError}
use proxy_protocol_rs.Vendor.Aws.{parse_aws_tlv_lem}
use proxy_protocol_rs.Vendor.Azure.{parse_azure_tlv_lem}
use proxy_protocol_rs.Vendor.{
  parse_aws_tlv, parse_azure_tlv, be64_of, parse_gcp_tlv, find_raw, aws, azure, gcp,
}

-- The call, where it is made, comes back.
abbrev pub OptionReturns {ℓ κ} : {A : Type ℓ} {E : Type κ} → Option (Outcome A E) → Type 0
OptionReturns none = Unit {0}
OptionReturns (some r) = Returns r

parse_aws_tlv-Returns : (v : List ℕ) → Returns (parse_aws_tlv v)
unfolding parse_aws_tlv
parse_aws_tlv-Returns [] = tt
parse_aws_tlv-Returns (k ∷ v) = rw (parse_aws_tlv_lem k v) (ground arith)

parse_azure_tlv-Returns : (v : List ℕ) → Returns (parse_azure_tlv v)
unfolding parse_azure_tlv
parse_azure_tlv-Returns [] = tt
parse_azure_tlv-Returns (k ∷ []) = rw (parse_azure_tlv_lem k ([])) (ground arith)
parse_azure_tlv-Returns (k ∷ a ∷ []) = rw (parse_azure_tlv_lem k (a ∷ [])) (ground arith)
parse_azure_tlv-Returns (k ∷ a ∷ b ∷ []) = rw (parse_azure_tlv_lem k (a ∷ b ∷ [])) (ground arith)
parse_azure_tlv-Returns (k ∷ a ∷ b ∷ c ∷ []) =
    rw (parse_azure_tlv_lem k (a ∷ b ∷ c ∷ [])) (ground arith)
parse_azure_tlv-Returns (k ∷ a ∷ b ∷ c ∷ d ∷ v) =
    rw (parse_azure_tlv_lem k (a ∷ b ∷ c ∷ d ∷ v)) (ground arith)

be64_of-Returns : (v : List ℕ) → length v ≡ 8 → Returns (be64_of v)
be64_of-Returns (a ∷ b ∷ c ∷ d ∷ e ∷ f ∷ g ∷ h ∷ []) q = tt
be64_of-Returns _ q = absurd (omega arith)

parse_gcp_tlv-Returns : (v : List ℕ) → Returns (parse_gcp_tlv v)
unfolding parse_gcp_tlv
parse_gcp_tlv-Returns v = ground (arith, be64_of-Returns v)

found :
    {A : Type 0} (f : List ℕ → Outcome A TlvParseError)
    → ((v : List ℕ) → Returns (f v))
    → (o : Option (List ℕ)) → OptionReturns (map_option f o)
found f h none = tt
found f h (some v) = h v

-- The three vendors' accessors come back whatever the TLVs are: no value, of whatever length, makes
-- them panic, also not where eight bytes are unwrapped.
pub vendors-Returns :
    (t : Tlvs) → OptionReturns (aws t) × OptionReturns (azure t) × OptionReturns (gcp t)
unfolding aws azure gcp
vendors-Returns t = (
  found _ parse_aws_tlv-Returns (find_raw 0xea t.raw),
  found _ parse_azure_tlv-Returns (find_raw 0xee t.raw),
  found _ parse_gcp_tlv-Returns (find_raw 0xe0 t.raw),
)
