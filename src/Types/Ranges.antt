-- ===== src/Types/Ranges.antt =====
-- The values that the types of types.rs have in the source: a `u8` is below 256, a `u32` below 2^32,
-- a `String` is UTF-8, an address has its octets.
use proxy_protocol_rs.Prelude.{
  ℕ, ◌^◌, ◌≤◌, ◌<◌, ◌≡◌, true, bit_and, OnSome, Option, none, some, List, length, All, IsByte,
}
use proxy_protocol_rs.Std.Net.{IsSocket}
use proxy_protocol_rs.Std.Utf8.{is_utf8}
use proxy_protocol_rs.Types.{ProxyAddress, inet, unix, SslInfo, Tlvs, ProxyInfo}

-- A text field is UTF-8.
abbrev pub IsText : Option (List ℕ) → Type 0
IsText none = Unit {0}
IsText (some v) = is_utf8 v ≡ true

-- The TLS information that the format can carry: no flags but the named ones, and texts in UTF-8.
pub record IsSslInfo (s : SslInfo) : Type 0 where
  pub flags : bit_and s.client_flags 0x07 ≡ s.client_flags
  pub version : IsText s.version
  pub cipher : IsText s.cipher
  pub sig_alg : IsText s.sig_alg
  pub key_alg : IsText s.key_alg
  pub cn : IsText s.cn
  pub group : IsText s.group
  pub sig_scheme : IsText s.sig_scheme

-- A raw TLV: a type byte and its bytes
abbrev pub IsRawTlv : ℕ × List ℕ → Type 0
IsRawTlv (t, v) = (t < 256) × All IsByte v × (length v < 65536)

pub record IsTlvs (t : Tlvs) : Type 0 where
  pub alpn : OnSome (All IsByte) t.alpn
  pub authority : IsText t.authority
  pub crc32c : OnSome (λ x. x < 2 ^ 32) t.crc32c
  pub unique_id : OnSome (λ v. All IsByte v × (length v ≤ 128)) t.unique_id
  pub netns : IsText t.netns
  pub ssl : OnSome IsSslInfo t.ssl
  pub raw : All IsRawTlv t.raw

-- A path is at most as long as its field in the header.
abbrev pub IsAddress : ProxyAddress → Type 0
IsAddress (inet s) = IsSocket s
IsAddress (unix path) = All IsByte path × (length path ≤ 108)

pub record IsProxyInfo (i : ProxyInfo) : Type 0 where
  pub source : OnSome IsAddress i.source
  pub destination : OnSome IsAddress i.destination
  pub tlvs : IsTlvs i.tlvs
