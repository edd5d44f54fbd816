-- ===== src/Parse/Tlv/Ssl.antt =====
-- `parse_ssl` of parse/tlv.rs.
use proxy_protocol_rs.Prelude.{
  ℕ, zero, suc, ◌+◌, ◌≤◌, ◌≡◌, ◌/◌, ◌%◌, All, IsByte, refl, ap, ◌∙◌, inl, inr, List, [], ◌∷◌, ◌++◌,
  length, length-append, slice_from_lem, be32, ◌==◌, ok, Returns, arith,
}
use proxy_protocol_rs.Types.{SslInfo, ssl_default}
use proxy_protocol_rs.Error.{ParseError}
use proxy_protocol_rs.Parse.Tlv.{from_bits_truncate, set_ssl_field, parse_ssl_loop, parse_ssl}
use proxy_protocol_rs.Parse.Tlv.Read.{
  read_tlv-cases, length-frame, read_tlv-offset, read_tlv-wire, frame-wire,
}
use proxy_protocol_rs.Parse.Wire.{Entry, wire, Fits}

-- The offset shows in an error only.
parse_ssl_loop-offset :
    (fuel : ℕ) (s : SslInfo) (bytes : List ℕ) (o p : ℕ) {r : SslInfo}
    → parse_ssl_loop fuel s bytes o ≡ ok r
    → parse_ssl_loop fuel s bytes p ≡ ok r
unfolding parse_ssl_loop
parse_ssl_loop-offset fuel s [] o p h = h
parse_ssl_loop-offset zero s (b ∷ bs) o p h = cc
parse_ssl_loop-offset (suc fuel) s (b ∷ bs) o p h = elim (read_tlv-cases (b ∷ bs) o) [
  | inl e ↦ cc
  | inr (t, v, rest, f, e) ↦
      rw (read_tlv-offset (b ∷ bs) o p e)
        (parse_ssl_loop-offset fuel _ rest _ (p + (3 + length v)) (rw e at h))
]

-- With enough fuel the loop comes back.
pub parse_ssl_loop-Returns :
    (fuel : ℕ) (s : SslInfo) (bytes : List ℕ) (o : ℕ)
    → length bytes ≤ fuel
    → Returns (parse_ssl_loop fuel s bytes o)
unfolding parse_ssl_loop
parse_ssl_loop-Returns fuel s [] o h = tt
parse_ssl_loop-Returns zero s (b ∷ bs) o h = absurd (omega arith)
parse_ssl_loop-Returns (suc fuel) s (b ∷ bs) o h = elim (read_tlv-cases (b ∷ bs) o) [
  | inl e ↦ rw e tt
  | inr (t, v, rest, f, e) ↦
      rw e (parse_ssl_loop-Returns fuel _ rest _ (omega (arith, length-frame f)))
]

abbrev pub ssl_start : ℕ → ℕ → SslInfo
ssl_start client_byte verify = record ssl_default {
  client_flags = from_bits_truncate client_byte;
  verified = verify == 0;
}

-- The five bytes in front of the sub-TLVs are read, and then the loop runs.
pub parse_ssl-long :
    (a b c d e : ℕ) (bs : List ℕ) (o : ℕ)
    → parse_ssl (a ∷ b ∷ c ∷ d ∷ e ∷ bs) o
      ≡ parse_ssl_loop (length bs) (ssl_start a (be32 b c d e)) bs (o + 5)
unfolding parse_ssl
parse_ssl-long a b c d e bs o =
    rw (slice_from_lem {E = ParseError} (a ∷ b ∷ c ∷ d ∷ e ∷ bs) 5 (omega arith))

pub parse_ssl-offset :
    (v : List ℕ) (o : ℕ) {r : SslInfo} → parse_ssl v o ≡ ok r → parse_ssl v 0 ≡ ok r
parse_ssl-offset (a ∷ b ∷ c ∷ d ∷ e ∷ bs) o h =
    rw (parse_ssl-long a b c d e bs 0)
      (parse_ssl_loop-offset _ _ bs (o + 5) (0 + 5) (rw (parse_ssl-long a b c d e bs o) at h))
parse_ssl-offset _ o h = unfold parse_ssl in cc

pub parse_ssl-Returns : (v : List ℕ) (o : ℕ) → 5 ≤ length v → Returns (parse_ssl v o)
parse_ssl-Returns (a ∷ b ∷ c ∷ d ∷ e ∷ bs) o h =
    rw (parse_ssl-long a b c d e bs o) (parse_ssl_loop-Returns _ _ bs (o + 5) (omega arith))
parse_ssl-Returns _ o h = absurd (omega arith)

-- The sub-TLVs set the fields in turn.
abbrev pub ssl_fold : List Entry → SslInfo → SslInfo
ssl_fold [] s = s
ssl_fold ((k, v) ∷ es) s = ssl_fold es (set_ssl_field k v s)

-- The loop on well-formed sub-TLVs.
pub parse_ssl_loop-wire :
    (es : List Entry) (fuel : ℕ) (s : SslInfo) (o : ℕ)
    → All Fits es
    → length (wire es) ≤ fuel
    → parse_ssl_loop fuel s (wire es) o ≡ ok (ssl_fold es s)
unfolding parse_ssl_loop
parse_ssl_loop-wire [] fuel s o h k = refl
parse_ssl_loop-wire ((t, v) ∷ es) zero s o h k = absurd (omega arith)
parse_ssl_loop-wire ((t, v) ∷ es) (suc fuel) s o h k =
    rw (read_tlv-wire t v (wire es) o h.0)
      (parse_ssl_loop-wire es fuel _ _ h.1 (omega (arith, length-append v (wire es))))

-- If the loop succeeds, its input is well-formed sub-TLVs.
pub parse_ssl_loop-ok :
    (fuel : ℕ) (s : SslInfo) (bytes : List ℕ) (o : ℕ) {r : SslInfo}
    → All IsByte bytes
    → parse_ssl_loop fuel s bytes o ≡ ok r
    → (es : List Entry) × (bytes ≡ wire es) × All Fits es
unfolding parse_ssl_loop
parse_ssl_loop-ok fuel s [] o b h = ([], refl, tt)
parse_ssl_loop-ok zero s (x ∷ bs) o b h = cc
parse_ssl_loop-ok (suc fuel) s (x ∷ bs) o b h = elim (read_tlv-cases (x ∷ bs) o) [
  | inl e ↦ cc
  | inr (t, v, rest, f, e) ↦
      let w = frame-wire f b in
      let (es, q, fits) = parse_ssl_loop-ok fuel _ rest _ w.rest_bytes (rw e at h) in
      (
        (t, v) ∷ es,
        w.frame ∙ ap (λ r. t ∷ (length v / 256) ∷ (length v % 256) ∷ (v ++ r)) q,
        (w.fits, fits),
      )
]
