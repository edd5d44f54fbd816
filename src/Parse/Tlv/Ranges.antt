-- ===== src/Parse/Tlv/Ranges.antt =====
-- The values that parse/tlv.rs gives are values of their types.
use proxy_protocol_rs.Prelude.{
  ℕ, ◌^◌, ◌≤◌, ◌<◌, ◌≡◌, refl, sym, subst, inl, inr, true, ◌==◌, ==_iff, bit_and, be32, agree,
  agree-at, Bool-cases, OnSome, OnSome-map, OnSome-and_then, if◌then◌else◌, Option, none, some,
  map_option, override, List, [], ◌∷◌, length, All, All-split, IsByte, ok, arith,
}
use proxy_protocol_rs.Std.Utf8.{is_utf8}
use proxy_protocol_rs.Std.Utf8.Append.{from_utf8_lossy-is_utf8}
use proxy_protocol_rs.Types.{SslInfo, Tlvs}
use proxy_protocol_rs.Types.Ranges.{IsText, IsSslInfo, IsRawTlv, IsTlvs}
use proxy_protocol_rs.Parse.Wire.{Entry, wire, Fits, last_of}
use proxy_protocol_rs.Parse.Tlv.{bytes_to_string, from_bits_truncate, set_ssl_field, parse_tlvs}
use proxy_protocol_rs.Parse.Tlv.Ssl.{ssl_start, ssl_fold, parse_ssl-long, parse_ssl_loop-wire}
use proxy_protocol_rs.Parse.Tlv.View.{crc_of, ssl_of}
use proxy_protocol_rs.Parse.Tlv.Accept.{IsAcceptable, IsSslValue}
use proxy_protocol_rs.Parse.Tlv.Loop.{parse_tlvs-lossless}

pub bytes_to_string-is_utf8 : (v : List ℕ) → is_utf8 (bytes_to_string v) ≡ true
unfolding bytes_to_string
bytes_to_string-is_utf8 v = elim (Bool-cases (is_utf8 v)) [
  | inl e ↦ rw e e
  | inr e ↦ rw e (from_utf8_lossy-is_utf8 v)
]

set_ssl_field-IsSslInfo :
    (k : ℕ) (v : List ℕ) (s : SslInfo) → IsSslInfo s → IsSslInfo (set_ssl_field k v s)
unfolding set_ssl_field
set_ssl_field-IsSslInfo k v s h = ground (arith, bytes_to_string-is_utf8 v)

ssl_fold-IsSslInfo : (es : List Entry) (s : SslInfo) → IsSslInfo s → IsSslInfo (ssl_fold es s)
ssl_fold-IsSslInfo [] s h = h
ssl_fold-IsSslInfo ((k, v) ∷ es) s h =
    ssl_fold-IsSslInfo es (set_ssl_field k v s) (set_ssl_field-IsSslInfo k v s h)

-- The named flags, for every byte
flags_table : agree (λ b. bit_and (from_bits_truncate b) 0x07) from_bits_truncate 256 ≡ true
unfolding agree
flags_table = refl

ssl_start-IsSslInfo : (b verify : ℕ) → b < 256 → IsSslInfo (ssl_start b verify)
ssl_start-IsSslInfo b verify h = record {
  flags =
      agree-at (λ k. bit_and (from_bits_truncate k) 0x07) from_bits_truncate 256 b h flags_table;
  version = tt;
  cipher = tt;
  sig_alg = tt;
  key_alg = tt;
  cn = tt;
  group = tt;
  sig_scheme = tt;
}

ssl_of-IsSslInfo : (v : List ℕ) → All IsByte v → IsSslValue v → OnSome IsSslInfo (ssl_of v)
ssl_of-IsSslInfo (a ∷ b ∷ c ∷ d ∷ e ∷ bs) w (h, (es, q, fits)) =
    rw
      (
        parse_ssl-long a b c d e bs 0,
        q,
        parse_ssl_loop-wire es (length (wire es)) (ssl_start a (be32 b c d e)) 5 fits (omega arith),
      )
      (ssl_fold-IsSslInfo es (ssl_start a (be32 b c d e))
        (ssl_start-IsSslInfo a (be32 b c d e) w.0))
ssl_of-IsSslInfo _ w (h, k) = absurd (omega arith)

crc_of-lt : (v : List ℕ) → All IsByte v → OnSome (λ x. x < 2 ^ 32) (crc_of v)
crc_of-lt (a ∷ b ∷ c ∷ d ∷ []) w = omega arith
crc_of-lt [] w = tt
crc_of-lt (a ∷ []) w = tt
crc_of-lt (a ∷ b ∷ []) w = tt
crc_of-lt (a ∷ b ∷ c ∷ []) w = tt
crc_of-lt (a ∷ b ∷ c ∷ d ∷ e ∷ r) w = tt

-- Entries whose wire form is bytes
wire-IsRawTlv : (es : List Entry) → All IsByte (wire es) → All Fits es → All IsRawTlv es
wire-IsRawTlv [] w f = tt
wire-IsRawTlv ((t, v) ∷ es) w f =
    let (vs, rest) = All-split IsByte v (wire es) w.1.1.1 in
    ((w.0, vs, f.0), wire-IsRawTlv es rest f.1)

-- What holds of each entry of a type holds of the last one.
last_of-All :
    (P : ℕ → List ℕ → Type 0) (k : ℕ) (es : List Entry)
    → All (λ e. P e.0 e.1) es
    → OnSome (P k) (last_of k es)
last_of-All P k [] h = tt
last_of-All P k ((t, v) ∷ es) h = later (last_of k es) (last_of-All P k es h.1)
  where
    later :
        (o : Option (List ℕ))
        → OnSome (P k) o
        → OnSome (P k) (override (if t == k then some v else none) o)
    later (some w) q = q
    later none q = elim (Bool-cases (t == k)) [
      | inl e ↦ rw e (subst (λ n. P n v) ((==_iff t k).0 e) h.0)
      | inr e ↦ rw e tt
    ]

map_option-IsText : (o : Option (List ℕ)) → IsText (map_option bytes_to_string o)
map_option-IsText none = tt
map_option-IsText (some v) = bytes_to_string-is_utf8 v

-- An entry that `parse_tlvs` has taken
abbrev Taken : ℕ → List ℕ → Type 0
Taken k v = IsRawTlv (k, v) × IsAcceptable (k, v)

both_All : (es : List Entry) → All IsRawTlv es → All IsAcceptable es → All (λ e. Taken e.0 e.1) es
both_All [] p q = tt
both_All (e ∷ es) p q = ((p.0, q.0), both_All es p.1 q.1)

-- On bytes, `parse_tlvs` gives a value of the type `Tlvs`: texts are UTF-8, also where the bytes were
-- not, the checksum is a u32, the unique ID has 128 bytes at most, the flags of the TLS information
-- are the named ones, and the raw list has type bytes and lengths that fit.
pub parse_tlvs-IsTlvs :
    (bytes : List ℕ) (t : Tlvs) → All IsByte bytes → parse_tlvs bytes ≡ ok t → IsTlvs t
parse_tlvs-IsTlvs bytes t b h =
    let (wired, fits, acceptable, view) = parse_tlvs-lossless bytes t b h in
    let raw = wire-IsRawTlv t.raw (subst (All IsByte) (sym wired) b) fits in
    let last : (k : ℕ) → OnSome (Taken k) (last_of k t.raw) =
      λ k. last_of-All Taken k t.raw (both_All t.raw raw acceptable) in
    record {
      alpn =
          subst (OnSome (All IsByte)) (sym view.alpn)
            (OnSome-map (Taken 1) (All IsByte) _ (λ v p. p.0.1) (last 1));
      authority = subst IsText (sym view.authority) (map_option-IsText _);
      crc32c = subst (OnSome (λ x. x < 2 ^ 32)) (sym view.crc32c) (
          OnSome-and_then (Taken 3) (λ x. x < 2 ^ 32) crc_of _ (λ v p. crc_of-lt v p.0.1) (last 3));
      unique_id = subst (OnSome (λ v. All IsByte v × (length v ≤ 128))) (sym view.unique_id) (
          OnSome-map (Taken 5) (λ v. All IsByte v × (length v ≤ 128)) _ (λ v p. (p.0.1, p.1.1 refl))
            (last 5));
      netns = subst IsText (sym view.netns) (map_option-IsText _);
      ssl = subst (OnSome IsSslInfo) (sym view.ssl) (
          OnSome-and_then (Taken 0x20) IsSslInfo ssl_of _
            (λ v p. ssl_of-IsSslInfo v p.0.1 (p.1.2 refl)) (last 0x20));
      raw = raw;
    }
