-- ===== src/Std/Hex.antt =====
-- The groups of an IPv6 address: `{:x}` against the parsers of the standard library.
use proxy_protocol_rs.Prelude.{
  ℕ, zero, suc, ◌+◌, ◌*◌, ◌/◌, ◌%◌, ◌≤◌, ◌<◌, ◌≡◌, refl, ap, ◌∙◌, inl, inr, true, ltb, ltb→lt,
  ltb_false→le, Bool-cases, agree, agree-at, Option, none, some, List, [], ◌∷◌, ◌++◌, append_assoc,
  length, length-append, All, All-append, arith,
}
use proxy_protocol_rs.Std.IpText.{to_digit, read_digits}
use proxy_protocol_rs.Std.IpDisplay.{digit_char, show_loop}
use proxy_protocol_rs.Std.Digits.{show_small, show_large, length_step, read_char}

-- What holds of all digits holds of all bytes of the text.
pub hex-All :
    (P : ℕ → Type 0)
    → ((d : ℕ) → d < 16 → P (digit_char d))
    → (fuel n : ℕ) → All P (show_loop 16 fuel n)
unfolding show_loop
hex-All P digit zero n = tt
hex-All P digit (suc fuel) n = elim (Bool-cases (ltb n 16)) [
  | inl e ↦ rw e (digit n (ltb→lt n 16 e), tt)
  | inr e ↦ rw e (
      All-append P (show_loop 16 fuel (n / 16)) (digit_char (n % 16) ∷ [])
        (hex-All P digit fuel (n / 16)) (digit (n % 16) (omega arith), tt))
]

hex_one : (fuel n : ℕ) → n < 16 → length (show_loop 16 fuel n) ≤ 1
unfolding show_loop
hex_one zero n k = omega arith
hex_one (suc fuel) n k = omega (arith, length_step 16 0 fuel n (λ ge. absurd (omega arith)))

hex_two : (fuel n : ℕ) → n < 256 → length (show_loop 16 fuel n) ≤ 2
unfolding show_loop
hex_two zero n k = omega arith
hex_two (suc fuel) n k =
    omega (arith, length_step 16 1 fuel n (λ ge. hex_one fuel (n / 16) (omega arith)))

hex_three : (fuel n : ℕ) → n < 4096 → length (show_loop 16 fuel n) ≤ 3
unfolding show_loop
hex_three zero n k = omega arith
hex_three (suc fuel) n k =
    omega (arith, length_step 16 2 fuel n (λ ge. hex_two fuel (n / 16) (omega arith)))

pub hex_four : (fuel n : ℕ) → n < 65536 → length (show_loop 16 fuel n) ≤ 4
unfolding show_loop
hex_four zero n k = omega arith
hex_four (suc fuel) n k =
    omega (arith, length_step 16 3 fuel n (λ ge. hex_three fuel (n / 16) (omega arith)))

-- A digit read, as a number: 0 for none
abbrev code : Option ℕ → ℕ
code none = 0
code (some d) = suc d

code-some : (o : Option ℕ) (d : ℕ) → code o ≡ suc d → o ≡ some d
code-some none d h = absurd (omega arith)
code-some (some e) d h = let same : e ≡ d = omega arith in ap some same

digit_table : agree (λ d. code (to_digit 16 (digit_char d))) suc 16 ≡ true
unfolding agree to_digit
digit_table = refl

to_digit-digit_char : (d : ℕ) → d < 16 → to_digit 16 (digit_char d) ≡ some d
to_digit-digit_char d h =
    code-some (to_digit 16 (digit_char d)) d
      (agree-at (λ k. code (to_digit 16 (digit_char k))) suc 16 d h digit_table)

pub hex-read_digits :
    (fuel n : ℕ) (r : List ℕ)
    → n < fuel
    → length (show_loop 16 fuel n) ≤ 4
    → read_digits 16 4 (show_loop 16 fuel n ++ r) 0 0
      ≡ read_digits 16 4 r n (length (show_loop 16 fuel n))
hex-read_digits zero n r h k = absurd (omega arith)
hex-read_digits (suc fuel) n r h k = elim (Bool-cases (ltb n 16)) [
  | inl small ↦
      let lt = ltb→lt n 16 small in
      let z : 0 * 16 + n ≡ n = omega arith in
      rw (show_small 16 fuel n lt)
        (read_char 16 4 (digit_char n) 0 n 0 r (to_digit-digit_char n lt) (omega arith) ∙ rw z)
  | inr large ↦
      let ge = ltb_false→le n 16 large in
      let front = show_loop 16 fuel (n / 16) in
      let last = digit_char (n % 16) in
      let s = show_large 16 fuel n ge in
      let len : length (show_loop 16 (suc fuel) n) ≡ length front + 1 =
        ap length s ∙ length-append front (last ∷ []) in
      let d : n / 16 * 16 + n % 16 ≡ n = omega arith in
      rw (len, s, append_assoc front (last ∷ []) r)
        (hex-read_digits fuel (n / 16) (last ∷ r) (omega arith) (omega arith)
          ∙ (read_char 16 4 last (n / 16) (n % 16) (length front) r
                (to_digit-digit_char (n % 16) (omega arith)) (omega arith)
              ∙ rw d))
]
