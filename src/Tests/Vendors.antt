-- ===== src/Tests/Vendors.antt =====
-- Concrete inputs on which the theorems of vendor/ and axum.rs are used.
use proxy_protocol_rs.Prelude.{
  ℕ, ◌≤◌, ◌≡◌, ◌↔◌, refl, List, [], ◌∷◌, ◌++◌, All, none, some, false, ok, arith,
}
use proxy_protocol_rs.Types.{tlvs_default, v2, local, Tlvs}
use proxy_protocol_rs.Vendor.{AwsTlvs, aws, azure, gcp, parse_aws_tlv, parse_gcp_tlv}
use proxy_protocol_rs.Vendor.Total.{OptionReturns, vendors-Returns}
use proxy_protocol_rs.Vendor.Aws.{IsVpceByte, parse_aws_tlv-IsVpceByte}
use proxy_protocol_rs.Vendor.Gcp.{to_be64, parse_gcp_tlv-to_be64}
use proxy_protocol_rs.Vendor.Azure.{to_le32, azure-build}
use proxy_protocol_rs.Parse.Header.{parse, v2_signature}
use proxy_protocol_rs.Builder.Encode.{encode_tlv, encode_tlvs}
use proxy_protocol_rs.Builder.Calls.{HeaderBuilder}
use proxy_protocol_rs.Builder.Header.{build, build_v2, unfilled, fill_crc}
use proxy_protocol_rs.Builder.Header.Endpoints.{Endpoints}
use proxy_protocol_rs.Builder.Header.Plain.{IsPlain}
use proxy_protocol_rs.Builder.Header.RoundTrip.{info_with}
use proxy_protocol_rs.Config.{config_default}
use proxy_protocol_rs.Incoming.{closed}
use proxy_protocol_rs.Stream.{connect_info}
use proxy_protocol_rs.Listener.{
  Permit, permit_late, Connection, connected, accept, on_policy, on_decision, read_and_validate,
  acquire, read_loop, at_end,
}
use proxy_protocol_rs.Axum.{served, serve}
use proxy_protocol_rs.Axum.Skipping.{Fails, serve-Fails}
use proxy_protocol_rs.Tests.{sum_crc}
use proxy_protocol_rs.Tests.Listening.{clock, closed_error, peer, cut, accepted, accept-cut}

abbrev odd : Tlvs
odd = record tlvs_default { raw = (0xea, []) ∷ (0xe0, 1 ∷ 2 ∷ []) ∷ (0xee, 1 ∷ 2 ∷ 3 ∷ []) ∷ [] }

vendors-Returns_example :
    OptionReturns (aws odd) × OptionReturns (azure odd) × OptionReturns (gcp odd)
vendors-Returns_example = vendors-Returns odd

abbrev endpoint : AwsTlvs
endpoint = record { vpc_endpoint_id = some (0x76 ∷ 0x2d ∷ []); raw = (1, 0x76 ∷ 0x2d ∷ []) ∷ [] }

parse_aws_tlv-IsVpceByte_example :
    (parse_aws_tlv (1 ∷ 0x76 ∷ 0x2d ∷ []) ≡ ok endpoint)
    ↔ (All IsVpceByte (0x76 ∷ 0x2d ∷ []) × (endpoint ≡ endpoint))
parse_aws_tlv-IsVpceByte_example = parse_aws_tlv-IsVpceByte (0x76 ∷ 0x2d ∷ []) endpoint

parse_gcp_tlv-to_be64_example :
    parse_gcp_tlv (to_be64 1234567890123) ≡ ok (record { psc_connection_id = 1234567890123 })
parse_gcp_tlv-to_be64_example = parse_gcp_tlv-to_be64 1234567890123 (omega arith)

-- A LOCAL header with a link ID
abbrev linked : HeaderBuilder
linked = record {
  version = v2;
  command = local;
  transport = none;
  source = none;
  destination = none;
  tlv_entries = (0xee, 1 ∷ 2 ∷ 1 ∷ 0 ∷ 0 ∷ []) ∷ [];
  add_crc32c = false;
}

abbrev linked_bytes : List ℕ
linked_bytes = v2_signature ++ (0x20 ∷ 0 ∷ 0 ∷ 8 ∷ 0xee ∷ 0 ∷ 5 ∷ 1 ∷ 2 ∷ 1 ∷ 0 ∷ 0 ∷ [])

build-linked : build sum_crc linked ≡ ok linked_bytes
unfolding build build_v2 unfilled encode_tlvs fill_crc encode_tlv
build-linked = refl

linked-IsPlain : All IsPlain linked.tlv_entries
linked-IsPlain = (
  (
    omega arith,
    (λ i. absurd (omega arith), λ i. absurd (omega arith), λ i. absurd (omega arith)),
    λ i. omega arith,
  ),
  tt,
)

azure-build_example :
    (t : Tlvs) × (parse sum_crc (linked_bytes ++ []) ≡ ok (info_with linked t, 24))
    × (azure t
        ≡ some (ok (record { private_endpoint_link_id = some 258; raw = (1, to_le32 258) ∷ [] })))
azure-build_example =
    azure-build sum_crc linked linked_bytes [] 258 refl Endpoints.no_address linked-IsPlain
      build-linked (omega arith) refl

-- A peer that closes at once, and one that gets no permit
abbrev failing : List (Permit × Connection)
failing = (clock, connected closed peer) ∷ (permit_late, connected cut peer) ∷ []

All-fail : All (Fails sum_crc config_default closed_error) failing
unfolding accept on_policy on_decision read_and_validate acquire read_loop at_end
All-fail = ((_, refl), ((_, refl), tt))

serve-Fails_example :
    (slept : ℕ) × (slept ≤ 2)
    × (serve sum_crc config_default closed_error (failing ++ ((clock, connected cut peer) ∷ []))
        ≡ served accepted (connect_info accepted) [] slept)
serve-Fails_example =
    serve-Fails sum_crc config_default closed_error failing [] clock (connected cut peer) accepted
      All-fail accept-cut
