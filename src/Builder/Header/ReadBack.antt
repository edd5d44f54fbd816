-- ===== src/Builder/Header/ReadBack.antt =====
-- The v2 headers that can be made with the constructors and methods of builder.rs, from `build` to
-- `parse`.
use proxy_protocol_rs.Prelude.{ℕ, ◌+◌, ◌≤◌, ◌≡◌, List, ◌++◌, length, ok}
use proxy_protocol_rs.Types.{Tlvs}
use proxy_protocol_rs.Crc.{Crc32c}
use proxy_protocol_rs.Parse.Header.{parse}
use proxy_protocol_rs.Parse.Tlv.View.{View}
use proxy_protocol_rs.Builder.Calls.{HeaderBuilder}
use proxy_protocol_rs.Builder.Header.{build}
use proxy_protocol_rs.Builder.Header.Shape.{crc_entries}
use proxy_protocol_rs.Builder.Header.Plain.{plain-Fits}
use proxy_protocol_rs.Builder.Header.Size.{payload_size, build-payload_size}
use proxy_protocol_rs.Builder.Header.RoundTrip.{info_with, parse-build}
use proxy_protocol_rs.Builder.Header.Reachable.{Built, Built-IsReadable}

-- A v2 header is made by a call of `v2_local`, of `v2_proxy` with two IPv4 addresses or two IPv6
-- addresses without flow label and scope, or of `v2_unix` with two paths of at most 108 bytes and no
-- zero byte, and then by calls of any methods with values shorter than 65536 bytes, where a raw TLV
-- is no checksum and has a value that the parser takes for its type. If its payload has at most
-- 65535 bytes, then `build` does not panic, and `parse` accepts the bytes whatever follows them: it
-- gives back the command, the transport and the two addresses, it consumes exactly the bytes, its
-- raw list is the TLVs of the calls in order with the checksum, if there is one, last, and its typed
-- fields are the values of the last TLV of each type.
pub parse-Built :
    (c : Crc32c) (h : HeaderBuilder) (more : List ℕ)
    → Built h
    → payload_size h ≤ 65535
    → (bytes : List ℕ) × (sum : ℕ) × (t : Tlvs) × (build c h ≡ ok bytes)
      × (length bytes ≡ 16 + payload_size h)
      × (parse c (bytes ++ more) ≡ ok (info_with h t, length bytes))
      × (t.raw ≡ h.tlv_entries ++ crc_entries h.add_crc32c sum)
      × View t
parse-Built c h more made small =
    let r = Built-IsReadable made in
    let (bytes, built, len) =
      (build-payload_size c h r.version r.endpoints (plain-Fits h.tlv_entries r.plain)).0 small in
    let (sum, t, parsed, raw, view) =
      parse-build c h bytes more r.version r.endpoints r.plain built in
    (bytes, sum, t, built, len, parsed, raw, view)
