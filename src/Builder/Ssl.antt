-- ===== src/Builder/Ssl.antt =====
-- builder.rs: `encode_ssl_tlv_value`, the value of the TLV for TLS information.
pub mod Written
pub mod RoundTrip
use proxy_protocol_rs.Prelude.{
  ℕ, Option, none, some, if◌then◌else◌, List, ◌∷◌, to_be32, Outcome, ok, ◌>>=◌,
}
use proxy_protocol_rs.Types.{SslInfo}
use proxy_protocol_rs.Builder.Encode.{encode_tlv}

-- `if let Some(ref v) = field { encode_sub_tlv(&mut buf, type_byte, v); }`
unfoldable pub encode_field : List ℕ → ℕ → Option (List ℕ) → Outcome (List ℕ) ⊥
unfolding encode_tlv
encode_field buf type_byte none = ok buf
encode_field buf type_byte (some v) = encode_tlv buf type_byte v

unfoldable pub encode_ssl_tlv_value : SslInfo → Outcome (List ℕ) ⊥
encode_ssl_tlv_value ssl = do
  let verify : ℕ = if ssl.verified then 0 else 1
  let start = ssl.client_flags ∷ to_be32 verify
  b1 ← encode_field start 0x21 ssl.version
  b2 ← encode_field b1 0x22 ssl.cn
  b3 ← encode_field b2 0x23 ssl.cipher
  b4 ← encode_field b3 0x24 ssl.sig_alg
  b5 ← encode_field b4 0x25 ssl.key_alg
  b6 ← encode_field b5 0x26 ssl.group
  b7 ← encode_field b6 0x27 ssl.sig_scheme
  encode_field b7 0x28 ssl.client_cert
