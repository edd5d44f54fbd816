-- ===== src/Parse/Tlv/Loop.antt =====
-- `parse_tlvs` of parse/tlv.rs against the wire form.
use proxy_protocol_rs.Prelude.{
  ℕ, zero, suc, ◌+◌, ◌/◌, ◌%◌, ◌≤◌, ◌≡◌, subst, refl, sym, ap, ◌∙◌, inl, inr, List, [], ◌∷◌, ◌++◌,
  append_assoc, append-nil, length, length-append, All, IsByte, ok, Returns, Returns->>=, >>=-eq-ok,
  arith,
}
use proxy_protocol_rs.Types.{Tlvs, tlvs_default}
use proxy_protocol_rs.Parse.Wire.{Entry, wire, Fits}
use proxy_protocol_rs.Parse.Tlv.{set_tlv_field, push_raw, parse_tlvs_loop, parse_tlvs}
use proxy_protocol_rs.Parse.Tlv.Read.{read_tlv-cases, length-frame, read_tlv-wire, frame-wire}
use proxy_protocol_rs.Parse.Tlv.View.{View, default-View, field_View}
use proxy_protocol_rs.Parse.Tlv.Accept.{
  IsAcceptable, set_tlv_field-Returns, set_tlv_field-IsAcceptable, set_tlv_field-total,
}

parse_tlvs_loop-Returns :
    (fuel : ℕ) (t : Tlvs) (bytes : List ℕ) (o : ℕ)
    → length bytes ≤ fuel
    → Returns (parse_tlvs_loop fuel t bytes o)
unfolding parse_tlvs_loop
parse_tlvs_loop-Returns fuel t [] o h = tt
parse_tlvs_loop-Returns zero t (b ∷ bs) o h = absurd (omega arith)
parse_tlvs_loop-Returns (suc fuel) t (b ∷ bs) o h = elim (read_tlv-cases (b ∷ bs) o) [
  | inl e ↦ rw e tt
  | inr (k, v, rest, f, e) ↦ rw e (
      Returns->>= _ _ (set_tlv_field-Returns k v o _)
        (λ t' _. parse_tlvs_loop-Returns fuel t' rest _ (omega (arith, length-frame f))))
]

raw-snoc :
    (raw0 es : List Entry) (e : Entry) {raw1 raw2 : List Entry}
    → raw2 ≡ raw1 ++ es
    → raw1 ≡ raw0 ++ (e ∷ [])
    → raw2 ≡ raw0 ++ (e ∷ es)
raw-snoc raw0 es e p q = p ∙ (ap (λ r. r ++ es) q ∙ append_assoc raw0 (e ∷ []) es)

-- What a successful run has read: the entries that it appends to the raw list are the bytes.
pub record HasRead (t t' : Tlvs) (bytes : List ℕ) : Type 0 where
  pub entries : List Entry
  pub raw : t'.raw ≡ t.raw ++ entries
  pub bytes_eq : bytes ≡ wire entries
  pub fits : All Fits entries
  pub acceptable : All IsAcceptable entries
  pub view : View t'

parse_tlvs_loop-ok :
    (fuel : ℕ) (t : Tlvs) (bytes : List ℕ) (o : ℕ) {t' : Tlvs}
    → View t
    → All IsByte bytes
    → parse_tlvs_loop fuel t bytes o ≡ ok t'
    → HasRead t t' bytes
unfolding parse_tlvs_loop
parse_tlvs_loop-ok fuel t [] o {t'} w b h =
    subst (λ u. HasRead t u []) (cc)
      (record {
        entries = [];
        raw = sym (append-nil t.raw);
        bytes_eq = refl;
        fits = tt;
        acceptable = tt;
        view = w;
      })
parse_tlvs_loop-ok zero t (x ∷ bs) o w b h = cc
parse_tlvs_loop-ok (suc fuel) t (x ∷ bs) o w b h = elim (read_tlv-cases (x ∷ bs) o) [
  | inl e ↦ cc
  | inr (k, v, rest, f, e) ↦
      let wf = frame-wire f b in
      let (t1, set, more) = >>=-eq-ok (set_tlv_field k v o (push_raw k v t)) _ (rw e at h) in
      let (w1, raw1) = field_View v o t t1 w k set in
      let r = parse_tlvs_loop-ok fuel t1 rest (o + (3 + length v)) w1 wf.rest_bytes more in
      record {
        entries = (k, v) ∷ r.entries;
        raw = raw-snoc t.raw r.entries (k, v) r.raw raw1;
        bytes_eq =
            wf.frame ∙ ap (λ q. k ∷ (length v / 256) ∷ (length v % 256) ∷ (v ++ q)) r.bytes_eq;
        fits = (wf.fits, r.fits);
        acceptable = (set_tlv_field-IsAcceptable k v o _ wf.value_bytes set, r.acceptable);
        view = r.view;
      }
]

parse_tlvs_loop-wire :
    (es : List Entry) (fuel : ℕ) (t : Tlvs) (o : ℕ)
    → All Fits es
    → All IsAcceptable es
    → length (wire es) ≤ fuel
    → View t
    → (t' : Tlvs) × (parse_tlvs_loop fuel t (wire es) o ≡ ok t') × (t'.raw ≡ t.raw ++ es) × View t'
unfolding parse_tlvs_loop
parse_tlvs_loop-wire [] fuel t o f a h w = (t, refl, sym (append-nil _), w)
parse_tlvs_loop-wire ((k, v) ∷ es) zero t o f a h w = absurd (omega arith)
parse_tlvs_loop-wire ((k, v) ∷ es) (suc fuel) t o f a h w =
    let (t1, set) = set_tlv_field-total k v o (push_raw k v t) a.0 in
    let (w1, raw1) = field_View v o t t1 w k set in
    let (t', run, raw, w') =
      parse_tlvs_loop-wire es fuel t1 (o + (3 + length v)) f.1 a.1
        (omega (arith, length-append v (wire es))) w1 in
    (t', rw (read_tlv-wire k v (wire es) o f.0, set) run, raw-snoc t.raw es (k, v) raw raw1, w')

-- For every list of bytes `parse_tlvs` comes back, with TLVs or with an error: it does not panic and
-- its loops end.
pub parse_tlvs-Returns : (bytes : List ℕ) → Returns (parse_tlvs bytes)
unfolding parse_tlvs
parse_tlvs-Returns bytes = parse_tlvs_loop-Returns _ tlvs_default bytes 0 (omega arith)

-- If `parse_tlvs` succeeds on bytes, then the raw list in the wire form is exactly those bytes, each
-- of its TLVs fits the format and is acceptable, and each typed field is the value of the last TLV
-- of its type in the raw list: the text fields through `bytes_to_string`, the checksum and the TLS
-- information decoded.
pub parse_tlvs-lossless :
    (bytes : List ℕ) (t : Tlvs)
    → All IsByte bytes
    → parse_tlvs bytes ≡ ok t
    → (wire t.raw ≡ bytes) × All Fits t.raw × All IsAcceptable t.raw × View t
unfolding parse_tlvs
parse_tlvs-lossless bytes t b h =
    let r = parse_tlvs_loop-ok (length bytes) tlvs_default bytes 0 default-View b h in
    (
      subst (λ q. wire q ≡ bytes) (sym r.raw) (sym r.bytes_eq),
      subst (All Fits) (sym r.raw) r.fits,
      subst (All IsAcceptable) (sym r.raw) r.acceptable,
      r.view,
    )

-- On the wire form of TLVs that fit and are acceptable, `parse_tlvs` succeeds, keeps exactly those
-- TLVs in the raw list and sets each typed field from the last one of its type.
pub parse_tlvs-wire :
    (es : List Entry)
    → All Fits es
    → All IsAcceptable es
    → (t : Tlvs) × (parse_tlvs (wire es) ≡ ok t) × (t.raw ≡ es) × View t
unfolding parse_tlvs
parse_tlvs-wire es f a = parse_tlvs_loop-wire es _ tlvs_default 0 f a (omega arith) default-View
