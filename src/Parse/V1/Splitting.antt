-- ===== src/Parse/V1/Splitting.antt =====
-- `splitn` of parse/v1.rs, read backwards: how a line is made of its parts.
use proxy_protocol_rs.Prelude.{
  ℕ, zero, suc, ◌≤◌, ◌≡◌, ◌≢◌, refl, sym, ap, ◌⊎◌, inl, inr, ◌==◌, ==_iff, Bool-cases, Option, none,
  some, List, [], ◌∷◌, ◌++◌, length, All, subst, arith,
}
use proxy_protocol_rs.Parse.V1.{split_space, splitn}

abbrev pub NoSpace : List ℕ → Type 0
NoSpace = All (λ b. b ≢ 32)

-- Either there is no space, or the text before the first one has none.
split_space-cases :
    (bs : List ℕ)
    → ((split_space bs ≡ (bs, none)) × NoSpace bs)
      ⊎ ((x : List ℕ) × (r : List ℕ) × (split_space bs ≡ (x, some r))
          × (bs ≡ x ++ (32 ∷ r))
          × NoSpace x)
unfolding split_space
split_space-cases [] = inl (refl, tt)
split_space-cases (b ∷ bs) = elim (Bool-cases (b == 32)) [
  | inl e ↦ inr ([], bs, rw e, ap (λ k. k ∷ bs) ((==_iff b 32).0 e), tt)
  | inr e ↦
      let other : b ≢ 32 = λ q. ground (arith, rw ((==_iff b 32).1 q) at e) in
      elim (split_space-cases bs) [
        | inl (s, h) ↦ inl (rw (e, s), (other, h))
        | inr (x, r, s, q, h) ↦ inr (b ∷ x, r, rw (e, s), ap (◌∷◌ b) q, (other, h))
      ]
]

abbrev parts_of : ℕ → List ℕ → List ℕ × Option (List ℕ) → List (List ℕ)
parts_of n bs p = elim p.1 [ none ↦ bs ∷ [] | some rest ↦ p.0 ∷ splitn (suc n) rest ]

splitn-parts_of :
    (n : ℕ) (bs : List ℕ) (p : List ℕ × Option (List ℕ))
    → split_space bs ≡ p
    → splitn (suc (suc n)) bs ≡ parts_of n bs p
unfolding splitn
splitn-parts_of n bs p e = ap (parts_of n bs) e

-- The parts with a space between each two make the text, and no part has a space.
abbrev pub Joined : List (List ℕ) → List ℕ → Type 0
Joined [] bs = ⊥
Joined (x ∷ []) bs = (bs ≡ x) × NoSpace x
Joined (x ∷ y ∷ ys) bs = (r : List ℕ) × (bs ≡ x ++ (32 ∷ r)) × NoSpace x × Joined (y ∷ ys) r

Joined-cons :
    (x : List ℕ) (ps : List (List ℕ)) (bs r : List ℕ)
    → bs ≡ x ++ (32 ∷ r)
    → NoSpace x
    → Joined ps r
    → Joined (x ∷ ps) bs
Joined-cons x [] bs r e h j = absurd j
Joined-cons x (y ∷ ys) bs r e h j = (r, e, h, j)

-- Fewer parts than allowed are all of them.
pub splitn-Joined :
    (n : ℕ) (bs : List ℕ) → length (splitn (suc n) bs) ≤ n → Joined (splitn (suc n) bs) bs
unfolding splitn
splitn-Joined zero bs h = absurd (omega arith)
splitn-Joined (suc n) bs h = elim (split_space-cases bs) [
  | inl (s, k) ↦ subst (λ ps. Joined ps bs) (sym (splitn-parts_of n bs (bs, none) s)) (refl, k)
  | inr (x, r, s, q, k) ↦
      let parts = splitn-parts_of n bs (x, some r) s in
      subst (λ ps. Joined ps bs) (sym parts)
        (Joined-cons x (splitn (suc n) r) bs r q k
          (splitn-Joined n r (omega (arith, ap length parts))))
]
