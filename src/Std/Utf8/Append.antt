-- ===== src/Std/Utf8/Append.antt =====
-- Valid UTF-8 texts put together, and what `String::from_utf8_lossy` gives.
use proxy_protocol_rs.Prelude.{
  ℕ, zero, suc, ◌+◌, ◌≤◌, ◌≡◌, refl, ap, ◌∙◌, inl, inr, Bool, true, false, ◌&&◌, Bool-cases, List,
  [], ◌∷◌, ◌++◌, length, length-append, take, drop, drop-append_le, drop_all, length-take, arith,
}
use proxy_protocol_rs.Std.Utf8.{
  first_char, second_of_three, is_utf8_loop, is_utf8, replacement, lossy_char, lossy_loop,
  from_utf8_lossy,
}

-- A whole character is not changed by the bytes behind it.
first_char-append :
    (b : ℕ) (xs ys : List ℕ)
    → (first_char b xs).0 ≡ true
    → first_char b (xs ++ ys) ≡ first_char b xs
unfolding first_char
first_char-append b [] ys h = ground arith
first_char-append b (x ∷ []) ys h = ground arith
first_char-append b (x ∷ y ∷ []) ys h = ground arith
first_char-append b (x ∷ y ∷ z ∷ xs) ys h = refl

first_char-le : (b : ℕ) (xs : List ℕ) → (first_char b xs).0 ≡ true → (first_char b xs).1 ≤ length xs
unfolding first_char
first_char-le b [] h = ground arith
first_char-le b (x ∷ []) h = ground arith
first_char-le b (x ∷ y ∷ []) h = ground arith
first_char-le b (x ∷ y ∷ z ∷ xs) h = ground arith

first_char-take :
    (b : ℕ) (xs : List ℕ)
    → (first_char b xs).0 ≡ true
    → first_char b (take (first_char b xs).1 xs) ≡ first_char b xs
unfolding first_char
first_char-take b [] h = ground arith
first_char-take b (x ∷ []) h = ground arith
first_char-take b (x ∷ y ∷ []) h = ground arith
first_char-take b (x ∷ y ∷ z ∷ xs) h = ground arith

and-true : (a b : Bool) → (a && b) ≡ true → (a ≡ true) × (b ≡ true)
and-true true b h = (refl, h)
and-true false b h = cc

-- More fuel does not matter.
is_utf8_loop_more :
    (f g : ℕ) (xs : List ℕ) → f ≤ g → is_utf8_loop f xs ≡ true → is_utf8_loop g xs ≡ true
unfolding is_utf8_loop
is_utf8_loop_more f g [] k h = refl
is_utf8_loop_more zero g (x ∷ xs) k h = cc
is_utf8_loop_more (suc f) zero (x ∷ xs) k h = absurd (omega arith)
is_utf8_loop_more (suc f) (suc g) (x ∷ xs) k h =
    let (whole, rest) = and-true (first_char x xs).0 _ h in
    rw (whole, is_utf8_loop_more f g (drop (first_char x xs).1 xs) (omega arith) rest)

is_utf8_loop-append :
    (f g k : ℕ) (xs ys : List ℕ)
    → is_utf8_loop f xs ≡ true
    → is_utf8_loop g ys ≡ true
    → f + g ≤ k
    → is_utf8_loop k (xs ++ ys) ≡ true
unfolding is_utf8_loop
is_utf8_loop-append f g k [] ys h h' le = is_utf8_loop_more g k ys (omega arith) h'
is_utf8_loop-append zero g k (x ∷ xs) ys h h' le = cc
is_utf8_loop-append (suc f) g zero (x ∷ xs) ys h h' le = absurd (omega arith)
is_utf8_loop-append (suc f) g (suc k) (x ∷ xs) ys h h' le =
    let (whole, rest) = and-true (first_char x xs).0 _ h in
    rw (
      first_char-append x xs ys whole,
      whole,
      drop-append_le xs ys (first_char x xs).1 (first_char-le x xs whole),
      is_utf8_loop-append f g k (drop (first_char x xs).1 xs) ys rest h' (omega arith),
    )

pub is_utf8-append :
    (xs ys : List ℕ) → is_utf8 xs ≡ true → is_utf8 ys ≡ true → is_utf8 (xs ++ ys) ≡ true
unfolding is_utf8
is_utf8-append xs ys h h' =
    is_utf8_loop-append (length xs) (length ys) (length (xs ++ ys)) xs ys h h'
      (omega (arith, length-append xs ys))

one_char :
    (b : ℕ) (cs : List ℕ)
    → (first_char b cs).0 ≡ true
    → length cs ≤ (first_char b cs).1
    → is_utf8 (b ∷ cs) ≡ true
unfolding is_utf8 is_utf8_loop
one_char b cs h k = rw (h, drop_all cs (first_char b cs).1 k)

nil-is_utf8 : is_utf8 [] ≡ true
unfolding is_utf8 is_utf8_loop
nil-is_utf8 = refl

replacement-is_utf8 : is_utf8 replacement ≡ true
unfolding is_utf8 is_utf8_loop first_char second_of_three
replacement-is_utf8 = refl

lossy_char-is_utf8 : (b : ℕ) (bs : List ℕ) → is_utf8 (lossy_char b bs) ≡ true
unfolding lossy_char
lossy_char-is_utf8 b bs = elim (Bool-cases (first_char b bs).0) [
  | inr bad ↦ rw bad replacement-is_utf8
  | inl whole ↦
      let same = first_char-take b bs whole in
      rw whole (
        one_char b (take (first_char b bs).1 bs) (ap (λ p. p.0) same ∙ whole)
          (omega (arith, ap (λ p. p.1) same, length-take (first_char b bs).1 bs)))
]

lossy_loop-is_utf8 : (f : ℕ) (bs : List ℕ) → is_utf8 (lossy_loop f bs) ≡ true
unfolding lossy_loop
lossy_loop-is_utf8 f [] = nil-is_utf8
lossy_loop-is_utf8 zero (b ∷ bs) = nil-is_utf8
lossy_loop-is_utf8 (suc f) (b ∷ bs) =
    is_utf8-append (lossy_char b bs) _ (lossy_char-is_utf8 b bs)
      (lossy_loop-is_utf8 f (drop (first_char b bs).1 bs))

-- What `from_utf8_lossy` gives is a text, whatever the bytes.
pub from_utf8_lossy-is_utf8 : (bs : List ℕ) → is_utf8 (from_utf8_lossy bs) ≡ true
unfolding from_utf8_lossy
from_utf8_lossy-is_utf8 bs = lossy_loop-is_utf8 (length bs) bs
