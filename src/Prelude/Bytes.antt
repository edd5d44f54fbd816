-- ===== src/Prelude/Bytes.antt =====
-- Bytes and the big-endian and little-endian forms of machine words.
use mathlib.Core.Path.{◌≡◌, refl, sym, ap, ◌∙◌, subst}
use native.Mathlib.Omega.{arith}
use Prim.Native.Nat.{ℕ, zero, suc, bit_and, ◌+◌, ◌*◌, ◌/◌, ◌%◌, ◌<◌}
use mathlib.Core.Logic.{inl, inr}
use mathlib.Core.List.{List, [], ◌∷◌}
use mathlib.Core.Bool.{Bool, true, false, ◌&&◌}
use proxy_protocol_rs.Prelude.Tests.{Bool-cases, ◌==◌, ==_iff}

abbrev pub IsByte : ℕ → Type 0
IsByte b = b < 256

-- `u16::from_be_bytes`
abbrev pub be16 : ℕ → ℕ → ℕ
be16 a b = a * 256 + b

-- `u32::from_be_bytes`
abbrev pub be32 : ℕ → ℕ → ℕ → ℕ → ℕ
be32 a b c d = a * 16777216 + b * 65536 + c * 256 + d

-- `u32::from_le_bytes`
abbrev pub le32 : ℕ → ℕ → ℕ → ℕ → ℕ
le32 a b c d = be32 d c b a

-- `u16::to_be_bytes`
abbrev pub to_be16 : ℕ → List ℕ
to_be16 n = (n / 256 % 256) ∷ (n % 256) ∷ []

-- `u32::to_be_bytes`
abbrev pub to_be32 : ℕ → List ℕ
to_be32 n = (n / 16777216 % 256) ∷ (n / 65536 % 256) ∷ (n / 256 % 256) ∷ (n % 256) ∷ []

-- `a == b` on byte slices.
abbrev pub bytes_eq : List ℕ → List ℕ → Bool
bytes_eq [] [] = true
bytes_eq [] (b ∷ bs) = false
bytes_eq (a ∷ as') [] = false
bytes_eq (a ∷ as') (b ∷ bs) = a == b && bytes_eq as' bs

-- `xs.starts_with(p)`
abbrev pub starts_with : List ℕ → List ℕ → Bool
starts_with xs [] = true
starts_with [] (b ∷ bs) = false
starts_with (a ∷ as') (b ∷ bs) = a == b && starts_with as' bs

-- Two functions on bytes give the same word at each byte less than the bound.
unfoldable pub agree : (f g : ℕ → ℕ) → ℕ → Bool
agree f g zero = true
agree f g (suc bound) = agree f g bound && f bound == g bound

agree_step :
    (f g : ℕ → ℕ) (bound : ℕ)
    → agree f g (suc bound) ≡ true
    → (agree f g bound ≡ true) × (f bound ≡ g bound)
unfolding agree
agree_step f g bound run = ground (arith, (==_iff (f bound) (g bound)).0)

pub agree-at : (f g : ℕ → ℕ) (bound b : ℕ) → b < bound → agree f g bound ≡ true → f b ≡ g b
agree-at f g zero b below run = absurd (omega arith)
agree-at f g (suc bound) b below run =
    let parts = agree_step f g bound run in
    elim (Bool-cases (b == bound)) [
      | inl same ↦ subst (λ k. f k ≡ g k) (sym ((==_iff b bound).0 same)) parts.1
      | inr other ↦ agree-at f g bound b (ground (arith)) parts.0
    ]

nibble_table : agree (λ b. bit_and b 0x0f) (λ b. b % 16) 256 ≡ true
unfolding agree
nibble_table = refl

-- The low nibble of a byte
pub bit_and-lt : (b : ℕ) → b < 256 → bit_and b 0x0f < 16
bit_and-lt b h =
    let low = agree-at (λ k. bit_and k 0x0f) (λ k. k % 16) 256 b h nibble_table in omega arith

pub bytes_eq_refl : (xs : List ℕ) → bytes_eq xs xs ≡ true
bytes_eq_refl [] = refl
bytes_eq_refl (x ∷ xs) = rw ((==_iff x x).1 refl) (bytes_eq_refl xs)

pub bytes_eq→≡ : (xs ys : List ℕ) → bytes_eq xs ys ≡ true → xs ≡ ys
bytes_eq→≡ [] [] h = refl
bytes_eq→≡ [] (y ∷ ys) h = cc
bytes_eq→≡ (x ∷ xs) [] h = cc
bytes_eq→≡ (x ∷ xs) (y ∷ ys) h = elim (Bool-cases (x == y)) [
  | inl e ↦
      let same = (==_iff x y).0 e in
      ap (λ k. k ∷ xs) same ∙ ap (◌∷◌ y) (bytes_eq→≡ xs ys (rw e at h))
  | inr e ↦ absurd (ground (arith, rw e at h))
]
