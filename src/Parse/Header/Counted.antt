-- ===== src/Parse/Header/Counted.antt =====
-- The bytes that `parse` of parse/mod.rs counts as the header.
use proxy_protocol_rs.Prelude.{
  ℕ, zero, suc, ◌+◌, ◌≤◌, ◌<◌, ◌≡◌, ap, ◌⊎◌, inl, inr, List, [], ◌∷◌, ◌++◌, length, length-take,
  take, All, IsByte, index, ok, arith,
}
use proxy_protocol_rs.Types.{ProxyInfo, Version}
use proxy_protocol_rs.Error.{ParseError}
use proxy_protocol_rs.Crc.{Crc32c}
use proxy_protocol_rs.Parse.V1.Total.{window, window-lt, find_crlf-lt}
use proxy_protocol_rs.Parse.V1.Fields.{line-LineRead, LineRead-version, line_split}
use proxy_protocol_rs.Parse.V2.Parsed.{parse_v2-ParsedV2}
use proxy_protocol_rs.Parse.Header.{parse}
use proxy_protocol_rs.Parse.Header.Consumed.{parse_v1-ParsedV1, parse-cases}

-- A header of version 1 is a line of text that ends in CR LF.
pub record TextHeader (buf : List ℕ) (info : ProxyInfo) (n : ℕ) : Type 0 where
  pub version : info.version ≡ Version.v1
  pub bounded : n ≤ 107
  pub line : List ℕ
  pub rest : List ℕ
  pub cut : buf ≡ line ++ (0x0d ∷ 0x0a ∷ rest)
  pub counted : n ≡ length line + 2

-- A header of version 2 is sixteen bytes and a payload of at most 65535.
pub record BinaryHeader (info : ProxyInfo) (n : ℕ) : Type 0 where
  pub version : info.version ≡ Version.v2
  pub fixed : 16 ≤ n
  pub bounded : n ≤ 65551

index-IsByte :
    (xs : List ℕ) (i : ℕ) {x : ℕ} → All IsByte xs → index {E = ParseError} xs i ≡ ok x → x < 256
index-IsByte [] i h e = cc
index-IsByte (x ∷ xs) zero h e = ground arith
index-IsByte (x ∷ xs) (suc i) h e = index-IsByte xs i h.1 e

-- What `parse` accepts as `n` bytes of header are no more bytes than there are. In version 1 they are
-- a line with its CR LF, of 107 bytes at most; in version 2 they are 16 bytes at least and 65551 at
-- most.
pub parse-counted :
    (c : Crc32c) (buf : List ℕ) (info : ProxyInfo) (n : ℕ)
    → All IsByte buf
    → parse c buf ≡ ok (info, n)
    → (n ≤ length buf) × (TextHeader buf info n ⊎ BinaryHeader info n)
parse-counted c buf info n b h = elim (parse-cases c buf info n h) [
  | inl text ↦
      let p = parse_v1-ParsedV1 buf info n text in
      let (fits, bound) = window-lt buf p.found in
      let inside = find_crlf-lt (window buf) p.found in
      let (rest, w) = line_split buf p.line_end p.found (omega arith) in
      (
        omega (arith, p.total),
        inl (record {
          version = LineRead-version (line-LineRead (take p.line_end buf) info p.line);
          bounded = omega (arith, p.total);
          line = take p.line_end buf;
          rest = rest;
          cut = w;
          counted = omega (arith, p.total, length-take p.line_end buf);
        }),
      )
  | inr binary ↦
      let p = parse_v2-ParsedV2 c buf info n binary in
      let hi = index-IsByte buf 14 b p.header.at14 in
      let lo = index-IsByte buf 15 b p.header.at15 in
      (
        p.parsed.fits,
        inr (record {
          version = ap (λ i. i.version) p.parsed.result;
          fixed = p.parsed.long;
          bounded = omega (arith, p.total);
        }),
      )
]
