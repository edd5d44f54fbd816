-- ===== src/Builder/Ssl/Written.antt =====
-- The TLS information as `encode_ssl_tlv_value` of builder.rs writes it.
use proxy_protocol_rs.Prelude.{
  ℕ, ◌/◌, ◌%◌, ◌<◌, ◌≡◌, sym, ap, ◌∙◌, inl, inr, if◌then◌else◌, leb, leb→le, Bool-cases, Option,
  none, some, List, [], ◌∷◌, ◌++◌, append_assoc, append-nil, length, All, All-append, to_be32, ok,
  assert, >>=-eq-ok, >>-eq-ok, ok-injective, arith,
}
use proxy_protocol_rs.Types.{SslInfo}
use proxy_protocol_rs.Parse.Wire.{Entry, wire, Fits, wire-append}
use proxy_protocol_rs.Builder.Encode.{encode_tlv}
use proxy_protocol_rs.Builder.Header.Shape.{encode_tlv-wire}
use proxy_protocol_rs.Builder.Ssl.{encode_field, encode_ssl_tlv_value}

-- The sub-TLV of a field
abbrev pub entry_of : ℕ → Option (List ℕ) → List Entry
entry_of k none = []
entry_of k (some v) = (k, v) ∷ []

-- The sub-TLVs of the fields that are there
abbrev pub ssl_entries : SslInfo → List Entry
ssl_entries s =
    (((((((entry_of 0x21 s.version ++ entry_of 0x22 s.cn) ++ entry_of 0x23 s.cipher)
              ++ entry_of 0x24 s.sig_alg)
            ++ entry_of 0x25 s.key_alg)
          ++ entry_of 0x26 s.group)
        ++ entry_of 0x27 s.sig_scheme)
      ++ entry_of 0x28 s.client_cert)

written_fits :
    (buf : List ℕ) (k : ℕ) (v : List ℕ) {out : List ℕ}
    → encode_tlv buf k v ≡ ok out
    → length v < 65536
unfolding encode_tlv
written_fits buf k v h =
    let (fits, _) = >>-eq-ok (assert (leb (length v) 65535)) _ h in
    elim (Bool-cases (leb (length v) 65535)) [
      | inl e ↦ omega (arith, leb→le (length v) 65535 e)
      | inr e ↦ absurd (ground (arith, rw e at fits))
    ]

-- A field, if it is there, is appended in the wire form.
field_written :
    (buf : List ℕ) (k : ℕ) (o : Option (List ℕ)) {out : List ℕ}
    → encode_field buf k o ≡ ok out
    → (out ≡ buf ++ wire (entry_of k o)) × All Fits (entry_of k o)
unfolding encode_field
field_written buf k none h = (sym (ok-injective h) ∙ sym (append-nil buf), tt)
field_written buf k (some v) h =
    let fits = written_fits buf k v h in
    (
      sym (ok-injective (sym (encode_tlv-wire buf k v fits) ∙ h))
          ∙ ap (λ r. buf ++ (k ∷ (length v / 256) ∷ (length v % 256) ∷ r)) (sym (append-nil v)),
      (fits, tt),
    )

-- The buffer is `start` and TLVs that fit.
abbrev Written : List ℕ → List Entry → List ℕ → Type 0
Written start es out = (out ≡ start ++ wire es) × All Fits es

append_field :
    (start : List ℕ) (es : List Entry) (buf : List ℕ) (k : ℕ) (o : Option (List ℕ)) {out : List ℕ}
    → Written start es buf
    → encode_field buf k o ≡ ok out
    → Written start (es ++ entry_of k o) out
append_field start es buf k o w h =
    let (e, f) = field_written buf k o h in
    (
      e
          ∙ (ap (λ b. b ++ wire (entry_of k o)) w.0
              ∙ (append_assoc start (wire es) (wire (entry_of k o))
                  ∙ ap (λ r. start ++ r) (sym (wire-append es (entry_of k o))))),
      All-append Fits es (entry_of k o) w.1 f,
    )

-- The byte of flags and the word that says whether the certificate was verified
abbrev pub ssl_front : SslInfo → List ℕ
ssl_front s = s.client_flags ∷ to_be32 (if s.verified then 0 else 1)

pub encode_ssl-wire :
    (s : SslInfo) {v : List ℕ}
    → encode_ssl_tlv_value s ≡ ok v
    → (v ≡ ssl_front s ++ wire (ssl_entries s)) × All Fits (ssl_entries s)
unfolding encode_ssl_tlv_value
encode_ssl-wire s {v} h =
    let start = ssl_front s in
    let (b1, h1, k1) = >>=-eq-ok (encode_field start 0x21 s.version) _ h in
    let (b2, h2, k2) = >>=-eq-ok (encode_field b1 0x22 s.cn) _ k1 in
    let (b3, h3, k3) = >>=-eq-ok (encode_field b2 0x23 s.cipher) _ k2 in
    let (b4, h4, k4) = >>=-eq-ok (encode_field b3 0x24 s.sig_alg) _ k3 in
    let (b5, h5, k5) = >>=-eq-ok (encode_field b4 0x25 s.key_alg) _ k4 in
    let (b6, h6, k6) = >>=-eq-ok (encode_field b5 0x26 s.group) _ k5 in
    let (b7, h7, k7) = >>=-eq-ok (encode_field b6 0x27 s.sig_scheme) _ k6 in
    append_field start _ b7 0x28 s.client_cert
      (append_field start _ b6 0x27 s.sig_scheme
        (append_field start _ b5 0x26 s.group
          (append_field start _ b4 0x25 s.key_alg
            (append_field start _ b3 0x24 s.sig_alg
              (append_field start _ b2 0x23 s.cipher
                (append_field start _ b1 0x22 s.cn (field_written start 0x21 s.version h1) h2) h3)
              h4)
            h5)
          h6)
        h7)
      k7
