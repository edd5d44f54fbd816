-- ===== src/Std/HexGroup.antt =====
-- A group of an IPv6 address, as `read_number` reads it and as `read_ipv4_addr` does not.
use proxy_protocol_rs.Prelude.{
  ℕ, zero, suc, ◌+◌, ◌*◌, ◌/◌, ◌%◌, ◌<◌, ◌≡◌, refl, ap, ◌∙◌, inl, inr, Bool, true, false, ◌==◌, ltb,
  lt→ltb, ltb→lt, ltb_false→le, agree, agree-at, not, ◌&&◌, Bool-cases, if◌then◌else◌, Option, none,
  some, and_then, OnSome, OnSome-and_then, List, [], ◌∷◌, ◌++◌, length, length-append, All, arith,
}
use proxy_protocol_rs.Std.Net.{IsPort}
use proxy_protocol_rs.Std.IpText.{
  to_digit, read_digits, read_number, read_octets, read_ipv4, starts_with_zero,
}
use proxy_protocol_rs.Std.IpDisplay.{digit_char, show_loop, show_hex}
use proxy_protocol_rs.Std.Digits.{show_small, show_large, Stops, read_stop}
use proxy_protocol_rs.Std.Hex.{hex-All, hex_four, hex-read_digits}

-- What stands behind a group: nothing, or a colon.
pub data EndsGroup : List ℕ → Type 0 where
  at_end : EndsGroup []
  at_colon : (r : List ℕ) → EndsGroup (58 ∷ r)

ends-Stops : (radix : ℕ) (r : List ℕ) → to_digit radix 58 ≡ none → EndsGroup r → Stops radix r
ends-Stops radix _ h at_end = tt
ends-Stops radix _ h (at_colon r) = h

hex_number :
    (bytes r : List ℕ) (n count : ℕ)
    → read_digits 16 4 bytes 0 0 ≡ some (n, suc count, r)
    → n < 65536
    → read_number 16 4 true 65536 bytes ≡ some (n, r)
unfolding read_number
hex_number bytes r n count e h =
    let some_digit : (suc count == 0) ≡ false = ground arith in rw (e, some_digit, lt→ltb n 65536 h)

hex-cons : (fuel n : ℕ) → n < fuel → (k : ℕ) × (length (show_loop 16 fuel n) ≡ suc k)
hex-cons zero n h = absurd (omega arith)
hex-cons (suc fuel) n h = elim (Bool-cases (ltb n 16)) [
  | inl e ↦ (0, ap length (show_small 16 fuel n (ltb→lt n 16 e)))
  | inr e ↦
      let front = show_loop 16 fuel (n / 16) in
      let last = digit_char (n % 16) ∷ [] in
      let ge = ltb_false→le n 16 e in
      (length front, ap length (show_large 16 fuel n ge) ∙ (length-append front last ∙ omega arith))
]

-- A group is read back, up to what stands behind it.
pub read_number-show_hex :
    (g : ℕ) (r : List ℕ)
    → IsPort g
    → EndsGroup r
    → read_number 16 4 true 65536 (show_hex g ++ r) ≡ some (g, r)
unfolding show_hex to_digit
read_number-show_hex g r h end =
    let (k, len) = hex-cons (suc g) g (omega arith) in
    hex_number (show_hex g ++ r) r g k
      (hex-read_digits (suc g) g r (omega arith) (hex_four (suc g) g h)
        ∙ (rw len (read_stop 16 4 r g (suc k) (ends-Stops 16 r refl end))))
      h

-- The text does not go on with a dot.
abbrev NoDot : List ℕ → Type 0
NoDot [] = Unit {0}
NoDot (b ∷ bs) = (b == 46) ≡ false

abbrev IsNoDot : ℕ → Type 0
IsNoDot b = (b == 46) ≡ false

digit_of :
    (o : Option ℕ) (b acc count : ℕ) (bs : List ℕ)
    → IsNoDot b
    → ((acc count : ℕ) → OnSome (λ p. NoDot p.2) (read_digits 10 3 bs acc count))
    → OnSome
        (λ p. NoDot p.2)
        (elim o as (λ k. Option (ℕ × ℕ × List ℕ)) [
          | none ↦ some (acc, count, b ∷ bs)
          | some d ↦
              if ltb 3 (count + 1) then none else read_digits 10 3 bs (acc * 10 + d) (count + 1)
        ])
digit_of none b acc count bs h k = h
digit_of (some d) b acc count bs h k = elim (Bool-cases (ltb 3 (count + 1))) [
  | inl e ↦ rw e tt
  | inr e ↦ rw e (k (acc * 10 + d) (count + 1))
]

digits-NoDot :
    (xs r : List ℕ) (acc count : ℕ)
    → All IsNoDot xs
    → EndsGroup r
    → OnSome (λ p. NoDot p.2) (read_digits 10 3 (xs ++ r) acc count)
unfolding read_digits to_digit
digits-NoDot [] _ acc count h at_end = tt
digits-NoDot [] _ acc count h (at_colon r) = refl
digits-NoDot (x ∷ xs) r acc count h end =
    digit_of (to_digit 10 x) x acc count (xs ++ r) h.0
      (λ acc' count'. digits-NoDot xs r acc' count' h.1 end)

no_octet : (n : ℕ) (rest : List ℕ) → NoDot rest → read_octets (suc n) 1 rest ≡ none
unfolding read_octets
no_octet n [] h = refl
no_octet n (b ∷ bs) h = rw h

abbrev NotDotted : ℕ × List ℕ → Type 0
NotDotted p = NoDot p.1

octet_of :
    (n : ℕ) (rest : List ℕ) (zero_digits led fits : Bool)
    → NoDot rest
    → OnSome NotDotted
        (if zero_digits then none else if led then none else if fits then some (n, rest) else none)
octet_of n rest true led fits h = tt
octet_of n rest false true fits h = tt
octet_of n rest false false true h = h
octet_of n rest false false false h = tt

octet-NotDotted :
    (xs r : List ℕ)
    → All IsNoDot xs
    → EndsGroup r
    → OnSome NotDotted (read_number 10 3 false 256 (xs ++ r))
unfolding read_number
octet-NotDotted xs r h end =
    OnSome-and_then (λ p. NoDot p.2) NotDotted _ (read_digits 10 3 (xs ++ r) 0 0)
      (λ (n, count, rest) k.
        octet_of n rest (count == 0) (not false && starts_with_zero (xs ++ r) && ltb 1 count)
          (ltb n 256) k)
      (digits-NoDot xs r 0 0 h end)

then_dot :
    (o : Option (ℕ × List ℕ))
    → OnSome NotDotted o
    → ◌≡◌ {A = Option (List ℕ × List ℕ)}
        (and_then o λ (octet, rest).
          and_then (read_octets 3 1 rest) λ (octets, end). some (octet ∷ octets, end))
        none
then_dot none h = refl
then_dot (some (octet, rest)) h = rw (no_octet 2 rest h)

-- A text without a dot before its first colon is no IPv4 address.
pub no_ipv4 : (xs r : List ℕ) → All IsNoDot xs → EndsGroup r → read_ipv4 (xs ++ r) ≡ none
unfolding read_ipv4 read_octets
no_ipv4 xs r h end =
    rw (then_dot (read_number 10 3 false 256 (xs ++ r)) (octet-NotDotted xs r h end))

dot_table : agree (λ d. if digit_char d == 46 then 1 else 0) (λ d. 0) 16 ≡ true
unfolding agree
dot_table = refl

digit-IsNoDot : (d : ℕ) → d < 16 → IsNoDot (digit_char d)
digit-IsNoDot d h = elim (Bool-cases (digit_char d == 46)) [
  | inl e ↦ absurd (
      ground (
        arith,
        rw e at (agree-at (λ k. if digit_char k == 46 then 1 else 0) (λ k. 0) 16 d h dot_table),
      ))
  | inr e ↦ e
]

-- A group is no IPv4 address.
pub read_ipv4-show_hex : (g : ℕ) (r : List ℕ) → EndsGroup r → read_ipv4 (show_hex g ++ r) ≡ none
unfolding show_hex
read_ipv4-show_hex g r end = no_ipv4 (show_hex g) r (hex-All IsNoDot digit-IsNoDot (suc g) g) end
