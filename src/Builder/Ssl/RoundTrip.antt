-- ===== src/Builder/Ssl/RoundTrip.antt =====
-- The TLS information: `encode_ssl_tlv_value` of builder.rs against `parse_ssl` of parse/tlv.rs.
use proxy_protocol_rs.Prelude.{
  ℕ, ◌+◌, ◌≡◌, refl, sym, ap, ◌∙◌, subst, inl, inr, Bool, true, bit_and, Bool-cases, Option, none,
  some, List, [], ◌∷◌, ◌++◌, length, ok, arith,
}
use proxy_protocol_rs.Std.Utf8.{is_utf8}
use proxy_protocol_rs.Types.Ranges.{IsText, IsSslInfo}
use proxy_protocol_rs.Types.{SslInfo, ssl_default}
use proxy_protocol_rs.Parse.Wire.{Entry, wire}
use proxy_protocol_rs.Parse.Tlv.{bytes_to_string, set_ssl_field, parse_ssl_loop, parse_ssl}
use proxy_protocol_rs.Parse.Tlv.Ssl.{ssl_fold, parse_ssl-long, parse_ssl_loop-wire}
use proxy_protocol_rs.Parse.Tlv.Accept.{IsSslValue}
use proxy_protocol_rs.Builder.Ssl.{encode_ssl_tlv_value}
use proxy_protocol_rs.Builder.Ssl.Written.{entry_of, ssl_entries, ssl_front, encode_ssl-wire}

ssl_fold-append :
    (es fs : List Entry) (s : SslInfo) → ssl_fold (es ++ fs) s ≡ ssl_fold fs (ssl_fold es s)
ssl_fold-append [] fs s = refl
ssl_fold-append ((k, v) ∷ es) fs s = ssl_fold-append es fs (set_ssl_field k v s)

text_kept : (v : List ℕ) → is_utf8 v ≡ true → bytes_to_string v ≡ v
unfolding bytes_to_string
text_kept v h = rw h

-- A text field that was empty gets the value of its sub-TLV.
text_field :
    (k : ℕ) (put : Option (List ℕ) → SslInfo → SslInfo) (o : Option (List ℕ)) (s : SslInfo)
    → ((v : List ℕ) → set_ssl_field k v s ≡ put (some (bytes_to_string v)) s)
    → put none s ≡ s
    → IsText o
    → ssl_fold (entry_of k o) s ≡ put o s
text_field k put none s set empty t = sym empty
text_field k put (some v) s set empty t = set v ∙ ap (λ x. put (some x) s) (text_kept v t)

bytes_field :
    (o : Option (List ℕ)) (s : SslInfo)
    → record s { client_cert = none } ≡ s
    → ssl_fold (entry_of 0x28 o) s ≡ record s { client_cert = o }
unfolding set_ssl_field
bytes_field none s empty = sym empty
bytes_field (some v) s empty = refl

fold_step :
    (es fs : List Entry) (s : SslInfo) {a b : SslInfo}
    → ssl_fold es s ≡ a
    → ssl_fold fs a ≡ b
    → ssl_fold (es ++ fs) s ≡ b
fold_step es fs s p q = ssl_fold-append es fs s ∙ (ap (ssl_fold fs) p ∙ q)

abbrev bare : ℕ → Bool → SslInfo
bare flags verified = record ssl_default { client_flags = flags; verified = verified }

fold_entries :
    (s : SslInfo) → IsSslInfo s → ssl_fold (ssl_entries s) (bare s.client_flags s.verified) ≡ s
unfolding set_ssl_field
fold_entries s w =
    let s0 = bare s.client_flags s.verified in
    let l1 = entry_of 0x21 s.version in
    let e1 =
      text_field 0x21 (λ o x. record x { version = o }) s.version s0 (λ v. refl) refl w.version in
    let l2 = l1 ++ entry_of 0x22 s.cn in
    let e2 =
      fold_step l1 (entry_of 0x22 s.cn) s0 e1
        (text_field 0x22 (λ o x. record x { cn = o }) s.cn _ (λ v. refl) refl w.cn) in
    let l3 = l2 ++ entry_of 0x23 s.cipher in
    let e3 =
      fold_step l2 (entry_of 0x23 s.cipher) s0 e2
        (text_field 0x23 (λ o x. record x { cipher = o }) s.cipher _ (λ v. refl) refl w.cipher) in
    let l4 = l3 ++ entry_of 0x24 s.sig_alg in
    let e4 =
      fold_step l3 (entry_of 0x24 s.sig_alg) s0 e3 (
        text_field 0x24 (λ o x. record x { sig_alg = o }) s.sig_alg _ (λ v. refl) refl w.sig_alg) in
    let l5 = l4 ++ entry_of 0x25 s.key_alg in
    let e5 =
      fold_step l4 (entry_of 0x25 s.key_alg) s0 e4 (
        text_field 0x25 (λ o x. record x { key_alg = o }) s.key_alg _ (λ v. refl) refl w.key_alg) in
    let l6 = l5 ++ entry_of 0x26 s.group in
    let e6 =
      fold_step l5 (entry_of 0x26 s.group) s0 e5
        (text_field 0x26 (λ o x. record x { group = o }) s.group _ (λ v. refl) refl w.group) in
    let l7 = l6 ++ entry_of 0x27 s.sig_scheme in
    let e7 = fold_step l6 (entry_of 0x27 s.sig_scheme) s0 e6 (
      text_field 0x27 (λ o x. record x { sig_scheme = o }) s.sig_scheme _ (λ v. refl) refl
        w.sig_scheme) in
    fold_step l7 (entry_of 0x28 s.client_cert) s0 e7 (bytes_field s.client_cert _ refl)

-- The front is read back.
front_read :
    (s : SslInfo) (bs : List ℕ) (o : ℕ)
    → parse_ssl (ssl_front s ++ bs) o
      ≡ parse_ssl_loop (length bs) (bare (bit_and s.client_flags 0x07) s.verified) bs (o + 5)
front_read s bs o = elim (Bool-cases s.verified) [
  | inl e ↦ rw e (parse_ssl-long s.client_flags 0 0 0 0 bs o)
  | inr e ↦ rw e (parse_ssl-long s.client_flags 0 0 0 1 bs o)
]

-- If `encode_ssl_tlv_value` does not panic on TLS information that has no flags but the named ones
-- and whose texts are UTF-8, then `parse_ssl` reads exactly that information back.
pub parse_ssl-encode_ssl_tlv_value :
    (s : SslInfo) (v : List ℕ) (o : ℕ)
    → IsSslInfo s
    → encode_ssl_tlv_value s ≡ ok v
    → parse_ssl v o ≡ ok s
parse_ssl-encode_ssl_tlv_value s v o w h =
    let (e, fits) = encode_ssl-wire s h in
    let es = ssl_entries s in
    ap (λ b. parse_ssl b o) e
    ∙ (front_read s (wire es) o
        ∙ (parse_ssl_loop-wire es (length (wire es)) _ (o + 5) fits (omega arith)
            ∙ ap ok (ap (λ f. ssl_fold es (bare f s.verified)) w.flags ∙ fold_entries s w)))

pub encode_ssl-IsSslValue :
    (s : SslInfo) {v : List ℕ} → encode_ssl_tlv_value s ≡ ok v → IsSslValue v
encode_ssl-IsSslValue s {v} h =
    let (e, fits) = encode_ssl-wire s h in
    subst IsSslValue (sym e) (omega arith, (ssl_entries s, refl, fits))
