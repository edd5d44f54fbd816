-- ===== src/Parse/Wire.antt =====
-- The wire form of a list of TLVs, as the v2 format has it: a description of what parse/tlv.rs reads
-- and builder.rs writes that is independent of both.
use proxy_protocol_rs.Prelude.{
  ℕ, ◌/◌, ◌%◌, ◌<◌, ◌≡◌, refl, sym, ap, ◌∙◌, ◌==◌, if◌then◌else◌, Option, none, some, override,
  List, [], ◌∷◌, ◌++◌, append_assoc, length, All, All-append, IsByte, arith,
}

-- A TLV: its type and its value.
abbrev pub Entry : Type 0
Entry = ℕ × List ℕ

abbrev pub entry_bytes : ℕ → List ℕ → List ℕ
entry_bytes t v = t ∷ (length v / 256) ∷ (length v % 256) ∷ v

abbrev pub wire : List Entry → List ℕ
wire [] = []
wire ((t, v) ∷ es) = t ∷ (length v / 256) ∷ (length v % 256) ∷ (v ++ wire es)

-- The length of the value fits the two bytes that the format has for it.
abbrev pub Fits : Entry → Type 0
Fits (t, v) = length v < 65536

-- The value of the last TLV of type `k`.
abbrev pub last_of : ℕ → List Entry → Option (List ℕ)
last_of k [] = none
last_of k ((t, v) ∷ es) = override (if t == k then some v else none) (last_of k es)

pub last_of-snoc :
    (k t : ℕ) (v : List ℕ) (es : List Entry)
    → last_of k (es ++ ((t, v) ∷ [])) ≡ (if t == k then some v else last_of k es)
last_of-snoc k t v [] = ground arith
last_of-snoc k t v ((u, w) ∷ es) = ground (arith, last_of-snoc k t v es)

pub wire-append : (es fs : List Entry) → wire (es ++ fs) ≡ wire es ++ wire fs
wire-append [] fs = refl
wire-append ((t, v) ∷ es) fs =
    ap (λ r. t ∷ (length v / 256) ∷ (length v % 256) ∷ r)
      (ap (λ r. v ++ r) (wire-append es fs) ∙ sym (append_assoc v (wire es) (wire fs)))

pub wire-IsByte :
    (es : List Entry)
    → All (λ e. (e.0 < 256) × All IsByte e.1 × (length e.1 < 65536)) es
    → All IsByte (wire es)
wire-IsByte [] h = tt
wire-IsByte ((t, v) ∷ es) (hv, hes) =
    (hv.0, (omega arith, (omega arith, All-append IsByte v (wire es) hv.1 (wire-IsByte es hes))))
