-- ===== src/Prelude/Lists.antt =====
-- Lists measured and indexed by native numbers, under the library's names.
use Prim.Native.Nat.{ℕ, zero, suc, ◌+◌, ◌-◌, ◌<◌, ◌≤◌, min}
use mathlib.Core.Path.{◌≡◌, refl, sym, ap}
use mathlib.Core.List.{List, [], ◌∷◌, ◌++◌}
use mathlib.Core.Bool.{◌&&◌}
use native.Mathlib.Omega.{arith}
use proxy_protocol_rs.Prelude.Outcomes.{Outcome, ok, panic}
use proxy_protocol_rs.Prelude.Tests.{leb, le→leb, if◌then◌else◌}

module _ {ℓ} {A : Type ℓ} where
  abbrev pub length : List A → ℕ
  length [] = 0
  length (x ∷ xs) = suc (length xs)

  abbrev pub take : ℕ → List A → List A
  take zero xs = []
  take (suc n) [] = []
  take (suc n) (x ∷ xs) = x ∷ take n xs

  abbrev pub drop : ℕ → List A → List A
  drop zero xs = xs
  drop (suc n) [] = []
  drop (suc n) (x ∷ xs) = drop n xs

  abbrev pub replicate : ℕ → A → List A
  replicate zero a = []
  replicate (suc n) a = a ∷ replicate n a

  -- `xs.get(i)`, with a default out of bounds.
  abbrev pub get_or : List A → ℕ → A → A
  get_or [] i d = d
  get_or (x ∷ xs) zero d = x
  get_or (x ∷ xs) (suc i) d = get_or xs i d

  abbrev pub All {κ} : (A → Type κ) → List A → Type κ
  All P [] = Unit {κ}
  All P (x ∷ xs) = P x × All P xs

  -- `xs[i]`, which panics out of bounds.
  abbrev pub index {μ} : {E : Type μ} → List A → ℕ → Outcome A E
  index [] i = panic
  index (x ∷ xs) zero = ok x
  index (x ∷ xs) (suc i) = index xs i

  -- `&xs[i..j]`, which panics out of bounds.
  abbrev pub slice {μ} : {E : Type μ} → List A → ℕ → ℕ → Outcome (List A) E
  slice xs i j = if leb i j && leb j (length xs) then ok (take (j - i) (drop i xs)) else panic

  -- `&xs[i..]`
  abbrev pub slice_from {μ} : {E : Type μ} → List A → ℕ → Outcome (List A) E
  slice_from xs i = if leb i (length xs) then ok (drop i xs) else panic

module _ {ℓ μ} {A : Type ℓ} {E : Type μ} where
  pub slice_lem :
      (xs : List A) (i j : ℕ)
      → i ≤ j
      → j ≤ length xs
      → slice {E = E} xs i j ≡ ok (take (j - i) (drop i xs))
  slice_lem xs i j h k = rw (le→leb i j h, le→leb j (length xs) k)

  pub slice_from_lem :
      (xs : List A) (i : ℕ) → i ≤ length xs → slice_from {E = E} xs i ≡ ok (drop i xs)
  slice_from_lem xs i h = rw (le→leb i (length xs) h)

  pub index_lem : (xs : List A) (i : ℕ) → i < length xs → (x : A) × (index {E = E} xs i ≡ ok x)
  index_lem [] i h = absurd (omega arith)
  index_lem (x ∷ xs) zero h = (x, refl)
  index_lem (x ∷ xs) (suc i) h = index_lem xs i (omega arith)

  pub index-append :
      (xs ys : List A) (i j : ℕ) → j ≡ length xs + i → index {E = E} (xs ++ ys) j ≡ index ys i
  index-append [] ys i j h = let e : j ≡ i = omega arith in rw e
  index-append (x ∷ xs) ys i zero h = absurd (omega arith)
  index-append (x ∷ xs) ys i (suc j) h = index-append xs ys i j (omega arith)

  pub index-append_le :
      (xs ys : List A) (i : ℕ) → i < length xs → index {E = E} (xs ++ ys) i ≡ index xs i
  index-append_le [] ys i h = absurd (omega arith)
  index-append_le (x ∷ xs) ys zero h = refl
  index-append_le (x ∷ xs) ys (suc i) h = index-append_le xs ys i (omega arith)

module _ {ℓ} {A : Type ℓ} where
  pub length-append : (xs ys : List A) → length (xs ++ ys) ≡ length xs + length ys
  length-append [] ys = omega arith
  length-append (x ∷ xs) ys = omega (arith, length-append xs ys)

  pub take-append-drop : (n : ℕ) (xs : List A) → take n xs ++ drop n xs ≡ xs
  take-append-drop zero xs = refl
  take-append-drop (suc n) [] = refl
  take-append-drop (suc n) (x ∷ xs) = rw (take-append-drop n xs)

  pub length-take : (n : ℕ) (xs : List A) → length (take n xs) ≡ min n (length xs)
  length-take zero xs = omega arith
  length-take (suc n) [] = omega arith
  length-take (suc n) (x ∷ xs) = omega (arith, length-take n xs)

  pub length-drop : (n : ℕ) (xs : List A) → length (drop n xs) ≡ length xs - n
  length-drop zero xs = omega arith
  length-drop (suc n) [] = omega arith
  length-drop (suc n) (x ∷ xs) = omega (arith, length-drop n xs)

  pub length-replicate : (n : ℕ) (a : A) → length (replicate n a) ≡ n
  length-replicate zero a = refl
  length-replicate (suc n) a = ap suc (length-replicate n a)

  pub take-append : (xs ys : List A) (n : ℕ) → n ≡ length xs → take n (xs ++ ys) ≡ xs
  take-append [] ys zero h = refl
  take-append [] ys (suc n) h = absurd (omega arith)
  take-append (x ∷ xs) ys zero h = absurd (omega arith)
  take-append (x ∷ xs) ys (suc n) h = ap (◌∷◌ x) (take-append xs ys n (omega arith))

  pub drop-append : (xs ys : List A) (n : ℕ) → n ≡ length xs → drop n (xs ++ ys) ≡ ys
  drop-append [] ys zero h = refl
  drop-append [] ys (suc n) h = absurd (omega arith)
  drop-append (x ∷ xs) ys zero h = absurd (omega arith)
  drop-append (x ∷ xs) ys (suc n) h = drop-append xs ys n (omega arith)

  pub take-append_le : (xs ys : List A) (n : ℕ) → n ≤ length xs → take n (xs ++ ys) ≡ take n xs
  take-append_le xs ys zero h = refl
  take-append_le [] ys (suc n) h = absurd (omega arith)
  take-append_le (x ∷ xs) ys (suc n) h = ap (◌∷◌ x) (take-append_le xs ys n (omega arith))

  pub drop-append_le :
      (xs ys : List A) (n : ℕ) → n ≤ length xs → drop n (xs ++ ys) ≡ drop n xs ++ ys
  drop-append_le xs ys zero h = refl
  drop-append_le [] ys (suc n) h = absurd (omega arith)
  drop-append_le (x ∷ xs) ys (suc n) h = drop-append_le xs ys n (omega arith)

  pub take_all : (xs : List A) (n : ℕ) → length xs ≤ n → take n xs ≡ xs
  take_all [] zero h = refl
  take_all [] (suc n) h = refl
  take_all (x ∷ xs) zero h = absurd (omega arith)
  take_all (x ∷ xs) (suc n) h = ap (◌∷◌ x) (take_all xs n (omega arith))

  pub All-append {κ} : (P : A → Type κ) (xs ys : List A) → All P xs → All P ys → All P (xs ++ ys)
  All-append P [] ys p q = q
  All-append P (x ∷ xs) ys p q = (p.0, All-append P xs ys p.1 q)

  pub All-take {κ} : (P : A → Type κ) (n : ℕ) (xs : List A) → All P xs → All P (take n xs)
  All-take P zero xs p = tt
  All-take P (suc n) [] p = tt
  All-take P (suc n) (x ∷ xs) p = (p.0, All-take P n xs p.1)

  pub All-drop {κ} : (P : A → Type κ) (n : ℕ) (xs : List A) → All P xs → All P (drop n xs)
  All-drop P zero xs p = p
  All-drop P (suc n) [] p = tt
  All-drop P (suc n) (x ∷ xs) p = All-drop P n xs p.1

  pub All-split {κ} : (P : A → Type κ) (xs ys : List A) → All P (xs ++ ys) → All P xs × All P ys
  All-split P [] ys p = (tt, p)
  All-split P (x ∷ xs) ys p = let (q, r) = All-split P xs ys p.1 in ((p.0, q), r)

  -- A slice does not see what is appended behind its end.
  pub slice-append :
      {E : Type 0} (xs ys : List A) (i j : ℕ)
      → i ≤ j
      → j ≤ length xs
      → slice {E = E} (xs ++ ys) i j ≡ slice xs i j
  slice-append {E} xs ys i j h k = rw (
    slice_lem {E = E} (xs ++ ys) i j h (omega (arith, length-append xs ys)),
    slice_lem {E = E} xs i j h k,
    drop-append_le xs ys i (omega arith),
    take-append_le (drop i xs) ys (j - i) (omega (arith, length-drop i xs)),
  )

  pub take-nil : (n : ℕ) → take {A = A} n [] ≡ []
  take-nil zero = refl
  take-nil (suc n) = refl

  pub drop-drop : (i j : ℕ) (xs : List A) → drop i (drop j xs) ≡ drop (j + i) xs
  drop-drop i zero xs = let e : 0 + i ≡ i = omega arith in rw e
  drop-drop zero (suc j) [] = let e : suc j + 0 ≡ suc j = omega arith in rw e
  drop-drop (suc i) (suc j) [] = let e : suc j + suc i ≡ suc (j + suc i) = omega arith in rw e
  drop-drop i (suc j) (x ∷ xs) =
      let e : suc j + i ≡ suc (j + i) = omega arith in rw e (drop-drop i j xs)

  pub drop-take : (i n : ℕ) (xs : List A) → drop i (take n xs) ≡ take (n - i) (drop i xs)
  drop-take zero n xs = let e : n - 0 ≡ n = omega arith in rw e
  drop-take (suc i) zero xs = let e : 0 - suc i ≡ 0 = omega arith in rw e
  drop-take (suc i) (suc n) [] = sym (take-nil (suc n - suc i))
  drop-take (suc i) (suc n) (x ∷ xs) =
      let e : suc n - suc i ≡ n - i = omega arith in rw e (drop-take i n xs)

  pub take-split :
      (i n : ℕ) (xs : List A) → i ≤ n → take n xs ≡ take i xs ++ take (n - i) (drop i xs)
  take-split zero n xs h = let e : n - 0 ≡ n = omega arith in rw e
  take-split (suc i) zero xs h = absurd (omega arith)
  take-split (suc i) (suc n) [] h = sym (take-nil (suc n - suc i))
  take-split (suc i) (suc n) (x ∷ xs) h =
      let e : suc n - suc i ≡ n - i = omega arith in
      rw e (ap (◌∷◌ x) (take-split i n xs (omega arith)))

  pub drop_all : (xs : List A) (n : ℕ) → length xs ≤ n → drop n xs ≡ []
  drop_all [] zero h = refl
  drop_all [] (suc n) h = refl
  drop_all (x ∷ xs) zero h = absurd (omega arith)
  drop_all (x ∷ xs) (suc n) h = drop_all xs n (omega arith)

  pub drop-replicate : (i n : ℕ) (a : A) → drop i (replicate n a) ≡ replicate (n - i) a
  drop-replicate zero n a = let e : n - 0 ≡ n = omega arith in rw e
  drop-replicate (suc i) zero a = let e : 0 - suc i ≡ 0 = omega arith in rw e
  drop-replicate (suc i) (suc n) a =
      let e : suc n - suc i ≡ n - i = omega arith in rw e (drop-replicate i n a)
