-- ===== src/Std/Digits.antt =====
-- Numbers as digits, in any radix: a round of `Display` and a round of the parsers.
use proxy_protocol_rs.Prelude.{
  ℕ, suc, ◌+◌, ◌*◌, ◌/◌, ◌%◌, ◌≤◌, ◌<◌, ◌≡◌, refl, sym, ap, subst, inl, inr, ltb, ltb→lt,
  ltb_false→le, lt→ltb, le→ltb, Bool-cases, if◌then◌else◌, List, [], ◌∷◌, ◌++◌, length,
  length-append, Option, none, some, arith,
}
use proxy_protocol_rs.Std.IpText.{to_digit, read_digits}
use proxy_protocol_rs.Std.IpDisplay.{digit_char, show_loop}

pub show_small : (radix fuel n : ℕ) → n < radix → show_loop radix (suc fuel) n ≡ digit_char n ∷ []
unfolding show_loop
show_small radix fuel n h = rw (lt→ltb n radix h)

pub show_large :
    (radix fuel n : ℕ)
    → radix ≤ n
    → show_loop radix (suc fuel) n
      ≡ show_loop radix fuel (n / radix) ++ (digit_char (n % radix) ∷ [])
unfolding show_loop
show_large radix fuel n h = rw (le→ltb n radix h)

-- A round writes one digit.
pub length_step :
    (radix k fuel n : ℕ)
    → (radix ≤ n → length (show_loop radix fuel (n / radix)) ≤ k)
    → length (show_loop radix (suc fuel) n) ≤ k + 1
length_step radix k fuel n h = elim (Bool-cases (ltb n radix)) [
  | inl small ↦ omega (arith, ap length (show_small radix fuel n (ltb→lt n radix small)))
  | inr large ↦
      let ge = ltb_false→le n radix large in
      let last = digit_char (n % radix) ∷ [] in
      omega (
        arith,
        ap length (show_large radix fuel n ge),
        length-append (show_loop radix fuel (n / radix)) last,
        h ge,
      )
]

-- A digit is read.
pub read_char :
    (radix m b acc d count : ℕ) (r : List ℕ)
    → to_digit radix b ≡ some d
    → count + 1 ≤ m
    → read_digits radix m (b ∷ r) acc count ≡ read_digits radix m r (acc * radix + d) (count + 1)
unfolding read_digits
read_char radix m b acc d count r t k =
    subst
      (λ (o : Option ℕ).
        (elim o [
          | none ↦ some (acc, count, b ∷ r)
          | some x ↦
              if ltb m (count + 1)
              then none
              else read_digits radix m r (acc * radix + x) (count + 1)
        ])
        ≡ read_digits radix m r (acc * radix + d) (count + 1))
      (sym t) (rw (le→ltb m (count + 1) k))

-- The text does not go on with a digit.
abbrev pub Stops : ℕ → List ℕ → Type 0
Stops radix [] = Unit {0}
Stops radix (b ∷ bs) = to_digit radix b ≡ none

-- Where no digit follows, the reader stops.
pub read_stop :
    (radix m : ℕ) (r : List ℕ) (acc count : ℕ)
    → Stops radix r
    → read_digits radix m r acc count ≡ some (acc, count, r)
unfolding read_digits
read_stop radix m [] acc count h = refl
read_stop radix m (b ∷ bs) acc count h =
    subst
      (λ (o : Option ℕ).
        ◌≡◌ {A = Option (ℕ × ℕ × List ℕ)}
          (elim o [
            | none ↦ some (acc, count, b ∷ bs)
            | some x ↦
                if ltb m (count + 1)
                then none
                else read_digits radix m bs (acc * radix + x) (count + 1)
          ])
          (some (acc, count, b ∷ bs)))
      (sym h) refl
