-- ===== src/Std/Decimal.antt =====
-- Decimal numbers: `Display` against the parsers of the standard library.
use proxy_protocol_rs.Prelude.{
  ℕ, zero, suc, ◌+◌, ◌-◌, ◌*◌, ◌/◌, ◌%◌, ◌≤◌, ◌<◌, ◌≡◌, refl, sym, ap, subst, ◌∙◌, inl, inr, Bool,
  true, false, ◌==◌, ==_iff, ltb, ltb→lt, ltb_false→le, lt→ltb, le→leb, ◌&&◌, Bool-cases,
  if◌then◌else◌, List, [], ◌∷◌, ◌++◌, append_assoc, append-nil, length, length-append, Option, none,
  some, arith,
}
use proxy_protocol_rs.Std.IpText.{
  to_digit, parse_u16_digits, parse_u16, read_digits, read_number, starts_with_zero,
}
use proxy_protocol_rs.Std.IpDisplay.{digit_char, show_loop}
use proxy_protocol_rs.Std.Digits.{show_small, show_large, length_step, read_char, Stops, read_stop}

to_digit-digit_char : (d : ℕ) → d < 10 → to_digit 10 (digit_char d) ≡ some d
unfolding to_digit
to_digit-digit_char d h =
    let e : 48 + d - 48 ≡ d = omega arith in
    rw (
      lt→ltb d 10 h,
      le→leb 48 (48 + d) (omega arith),
      le→leb (48 + d) 57 (omega arith),
      e,
      lt→ltb d 10 h,
    )

u16_char :
    (b acc d n : ℕ) (r : List ℕ)
    → to_digit 10 b ≡ some d
    → acc * 10 + d ≡ n
    → n < 65536
    → parse_u16_digits (b ∷ r) acc ≡ parse_u16_digits r n
unfolding parse_u16_digits
u16_char b acc d n r t e k =
    subst
      (λ (o : Option ℕ).
        (elim o [
          | none ↦ none
          | some x ↦ if ltb (acc * 10 + x) 65536 then parse_u16_digits r (acc * 10 + x) else none
        ])
        ≡ parse_u16_digits r n)
      (sym t) (rw (e, lt→ltb n 65536 k))

u16_digit :
    (acc d n : ℕ) (r : List ℕ)
    → d < 10
    → acc * 10 + d ≡ n
    → n < 65536
    → parse_u16_digits (digit_char d ∷ r) acc ≡ parse_u16_digits r n
u16_digit acc d n r h e k = u16_char (digit_char d) acc d n r (to_digit-digit_char d h) e k

show-parse_u16_digits :
    (fuel n : ℕ) (r : List ℕ)
    → n < fuel
    → n < 65536
    → parse_u16_digits (show_loop 10 fuel n ++ r) 0 ≡ parse_u16_digits r n
show-parse_u16_digits zero n r h k = absurd (omega arith)
show-parse_u16_digits (suc fuel) n r h k = elim (Bool-cases (ltb n 10)) [
  | inl small ↦
      let lt = ltb→lt n 10 small in
      rw (show_small 10 fuel n lt) (u16_digit 0 n n r lt (omega arith) k)
  | inr large ↦
      let ge = ltb_false→le n 10 large in
      rw
        (
          show_large 10 fuel n ge,
          append_assoc (show_loop 10 fuel (n / 10)) (digit_char (n % 10) ∷ []) r,
        )
        (show-parse_u16_digits fuel (n / 10) (digit_char (n % 10) ∷ r) (omega arith) (omega arith)
          ∙ u16_digit (n / 10) (n % 10) n r (omega arith) (omega arith) k)
]

show-read_digits :
    (m fuel n : ℕ) (r : List ℕ)
    → n < fuel
    → length (show_loop 10 fuel n) ≤ m
    → read_digits 10 m (show_loop 10 fuel n ++ r) 0 0
      ≡ read_digits 10 m r n (length (show_loop 10 fuel n))
show-read_digits m zero n r h k = absurd (omega arith)
show-read_digits m (suc fuel) n r h k = elim (Bool-cases (ltb n 10)) [
  | inl small ↦
      let lt = ltb→lt n 10 small in
      let s = show_small 10 fuel n lt in
      let k' : 1 ≤ m = omega (arith, ap length s) in
      let z : 0 * 10 + n ≡ n = omega arith in
      rw s (read_char 10 m (digit_char n) 0 n 0 r (to_digit-digit_char n lt) (omega arith) ∙ rw z)
  | inr large ↦
      let ge = ltb_false→le n 10 large in
      let front = show_loop 10 fuel (n / 10) in
      let s = show_large 10 fuel n ge in
      let len : length (show_loop 10 (suc fuel) n) ≡ length front + 1 =
        ap length s ∙ length-append front (digit_char (n % 10) ∷ []) in
      let d : n / 10 * 10 + n % 10 ≡ n = omega arith in
      rw (len, s, append_assoc front (digit_char (n % 10) ∷ []) r)
        (show-read_digits m fuel (n / 10) (digit_char (n % 10) ∷ r) (omega arith) (omega arith)
          ∙ (read_char 10 m (digit_char (n % 10)) (n / 10) (n % 10) (length front) r
                (to_digit-digit_char (n % 10) (omega arith)) (omega arith)
              ∙ rw d))
]

length_one : (fuel n : ℕ) → n < fuel → n < 10 → length (show_loop 10 fuel n) ≤ 1
length_one zero n h k = absurd (omega arith)
length_one (suc fuel) n h k = omega (arith, length_step 10 0 fuel n (λ ge. absurd (omega arith)))

length_two : (fuel n : ℕ) → n < fuel → n < 100 → length (show_loop 10 fuel n) ≤ 2
length_two zero n h k = absurd (omega arith)
length_two (suc fuel) n h k =
    omega
      (arith, length_step 10 1 fuel n (λ ge. length_one fuel (n / 10) (omega arith) (omega arith)))

pub length_three : (fuel n : ℕ) → n < fuel → n < 1000 → length (show_loop 10 fuel n) ≤ 3
length_three zero n h k = absurd (omega arith)
length_three (suc fuel) n h k =
    omega
      (arith, length_step 10 2 fuel n (λ ge. length_two fuel (n / 10) (omega arith) (omega arith)))

-- A number's first digit, which is 0 for 0 only
first_digit :
    (fuel n : ℕ)
    → n < fuel
    → (d : ℕ) × (rest : List ℕ) × (show_loop 10 fuel n ≡ digit_char d ∷ rest)
      × (d < 10)
      × (1 ≤ n → 1 ≤ d)
first_digit zero n h = absurd (omega arith)
first_digit (suc fuel) n h = elim (Bool-cases (ltb n 10)) [
  | inl small ↦ let lt = ltb→lt n 10 small in (n, [], show_small 10 fuel n lt, lt, λ p. p)
  | inr large ↦
      let ge = ltb_false→le n 10 large in
      let (d, rest, e, lt, p) = first_digit fuel (n / 10) (omega arith) in
      (
        d,
        rest ++ (digit_char (n % 10) ∷ []),
        show_large 10 fuel n ge ∙ ap (λ q. q ++ (digit_char (n % 10) ∷ [])) e,
        lt,
        λ q. p (omega arith),
      )
]

number_of :
    (bytes r : List ℕ) (n count : ℕ)
    → read_digits 10 3 bytes 0 0 ≡ some (n, count, r)
    → (count == 0) ≡ false
    → (starts_with_zero bytes && ltb 1 count) ≡ false
    → n < 256
    → read_number 10 3 false 256 bytes ≡ some (n, r)
unfolding read_number
number_of bytes r n count e a b h = rw (e, a, b, lt→ltb n 256 h)

and_false : (a : Bool) → (a && false) ≡ false
and_false true = refl
and_false false = refl

no_zero :
    (d : ℕ) (rest r : List ℕ)
    → 1 ≤ d
    → d < 10
    → starts_with_zero ((digit_char d ∷ rest) ++ r) ≡ false
no_zero d rest r h k = rw (lt→ltb d 10 k) (elim (Bool-cases (48 + d == 48)) [
  | inl e ↦ absurd (omega (arith, (==_iff (48 + d) 48).0 e))
  | inr e ↦ e
])

-- A number of a byte is read back, up to a text that does not go on with a digit.
pub read_number-show_loop :
    (n : ℕ) (r : List ℕ)
    → n < 256
    → Stops 10 r
    → read_number 10 3 false 256 (show_loop 10 (suc n) n ++ r) ≡ some (n, r)
read_number-show_loop n r h st =
    let text = show_loop 10 (suc n) n in
    let digits =
      show-read_digits 3 (suc n) n r (omega arith)
        (length_three (suc n) n (omega arith) (omega arith)) in
    let (d, rest, e, lt, p) = first_digit (suc n) n (omega arith) in
    let len : length text ≡ suc (length rest) = ap length e in
    number_of (text ++ r) r n (length text) (digits ∙ read_stop 10 3 r n (length text) st)
      (rw len (ground arith))
      (elim (Bool-cases (ltb n 10)) [
        | inl small ↦
            let one : length text ≡ 1 = ap length (show_small 10 n n (ltb→lt n 10 small)) in
            rw one (and_false (starts_with_zero (text ++ r)))
        | inr large ↦ rw (
            ap (λ q. starts_with_zero (q ++ r)) e
            ∙ no_zero d rest r (p (omega (arith, ltb_false→le n 10 large))) lt)
      ])
      h

no_sign :
    (b : ℕ) (rest : List ℕ)
    → (b == 43) ≡ false
    → parse_u16 (b ∷ rest) ≡ parse_u16_digits (b ∷ rest) 0
unfolding parse_u16
no_sign b [] h = refl
no_sign b (c ∷ rest) h = rw h

no_plus : (d : ℕ) → d < 10 → (digit_char d == 43) ≡ false
no_plus d k = rw (lt→ltb d 10 k) (elim (Bool-cases (48 + d == 43)) [
  | inl e ↦ absurd (omega (arith, (==_iff (48 + d) 43).0 e))
  | inr e ↦ e
])

-- `u16::from_str` on the text of a `u16`
pub parse_u16-show_loop : (n : ℕ) → n < 65536 → parse_u16 (show_loop 10 (suc n) n) ≡ some n
unfolding parse_u16_digits
parse_u16-show_loop n h =
    let (d, rest, e, lt, p) = first_digit (suc n) n (omega arith) in
    ap parse_u16 e
    ∙ (no_sign (digit_char d) rest (no_plus d lt)
        ∙ (ap (λ q. parse_u16_digits q 0) (sym e ∙ sym (append-nil (show_loop 10 (suc n) n)))
            ∙ show-parse_u16_digits (suc n) n [] (omega arith) h))
