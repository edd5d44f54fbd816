-- ===== src/Std/Plain.antt =====
-- The bytes and the length of numbers and IPv4 addresses as text.
use proxy_protocol_rs.Prelude.{
  ℕ, zero, suc, ◌/◌, ◌%◌, ◌≤◌, ◌<◌, ◌≡◌, sym, ap, subst, inl, inr, ltb, ltb→lt, ltb_false→le,
  lt→ltb, Bool-cases, List, [], ◌∷◌, ◌++◌, length, length-append, All, All-append, IsByte, arith,
}
use proxy_protocol_rs.Std.Net.{Ipv4Addr, IsIpv4}
use proxy_protocol_rs.Std.IpDisplay.{digit_char, show_loop, show_ipv4}
use proxy_protocol_rs.Std.Decimal.{length_three}
use proxy_protocol_rs.Std.Digits.{show_small, show_large, length_step}
use proxy_protocol_rs.Std.Ipv4Text.{dec, show_four}

-- A digit or a dot
abbrev pub IsPlainByte : ℕ → Type 0
IsPlainByte b = (46 ≤ b) × (b ≤ 57)

digit-IsPlainByte : (d : ℕ) → d < 10 → IsPlainByte (digit_char d)
digit-IsPlainByte d h = rw (lt→ltb d 10 h) (omega arith, omega arith)

pub show-IsPlainByte : (fuel n : ℕ) → n < fuel → All IsPlainByte (show_loop 10 fuel n)
show-IsPlainByte zero n h = absurd (omega arith)
show-IsPlainByte (suc fuel) n h = elim (Bool-cases (ltb n 10)) [
  | inl small ↦
      let lt = ltb→lt n 10 small in
      subst (All IsPlainByte) (sym (show_small 10 fuel n lt)) (digit-IsPlainByte n lt, tt)
  | inr large ↦
      let ge = ltb_false→le n 10 large in
      subst (All IsPlainByte) (sym (show_large 10 fuel n ge)) (
        All-append IsPlainByte (show_loop 10 fuel (n / 10)) (digit_char (n % 10) ∷ [])
          (show-IsPlainByte fuel (n / 10) (omega arith))
          (digit-IsPlainByte (n % 10) (omega arith), tt))
]

length_four : (fuel n : ℕ) → n < fuel → n < 10000 → length (show_loop 10 fuel n) ≤ 4
length_four zero n h k = absurd (omega arith)
length_four (suc fuel) n h k =
    omega (
      arith,
      length_step 10 3 fuel n (λ ge. length_three fuel (n / 10) (omega arith) (omega arith)),
    )

pub length_five : (fuel n : ℕ) → n < fuel → n < 100000 → length (show_loop 10 fuel n) ≤ 5
length_five zero n h k = absurd (omega arith)
length_five (suc fuel) n h k =
    omega
      (arith, length_step 10 4 fuel n (λ ge. length_four fuel (n / 10) (omega arith) (omega arith)))

joined :
    (a b c d : List ℕ)
    → All IsPlainByte a
    → All IsPlainByte b
    → All IsPlainByte c
    → All IsPlainByte d
    → All IsPlainByte (a ++ (46 ∷ (b ++ (46 ∷ (c ++ (46 ∷ (d ++ [])))))))
joined a b c d p q r s =
    let dot : IsPlainByte 46 = (omega arith, omega arith) in
    All-append IsPlainByte a _ p (
      dot,
      All-append IsPlainByte b _ q
          (dot, All-append IsPlainByte c _ r (dot, All-append IsPlainByte d [] s tt)),
    )

octets-plain :
    (os : List ℕ)
    → length os ≡ 4
    → All IsByte os
    → All IsPlainByte (show_ipv4 (record { octets = os }))
      × (length (show_ipv4 (record { octets = os })) ≤ 15)
octets-plain (a ∷ b ∷ c ∷ d ∷ []) e (p, (q, (r, (s, w)))) =
    let plain = λ (n : ℕ). show-IsPlainByte (suc n) n (omega arith) in
    let t3 = dec d ++ [] in
    let t2 = dec c ++ (46 ∷ t3) in
    let t1 = dec b ++ (46 ∷ t2) in
    (
      subst (All IsPlainByte) (sym (show_four a b c d))
          (joined (dec a) (dec b) (dec c) (dec d) (plain a) (plain b) (plain c) (plain d)),
      omega (
        arith,
        ap length (show_four a b c d),
        length-append (dec a) (46 ∷ t1),
        length-append (dec b) (46 ∷ t2),
        length-append (dec c) (46 ∷ t3),
        length-append (dec d) [],
        length_three (suc a) a (omega arith) (omega arith),
        length_three (suc b) b (omega arith) (omega arith),
        length_three (suc c) c (omega arith) (omega arith),
        length_three (suc d) d (omega arith) (omega arith),
      ),
    )
octets-plain _ e h = absurd (omega arith)

pub show_ipv4-plain :
    (a : Ipv4Addr) → IsIpv4 a → All IsPlainByte (show_ipv4 a) × (length (show_ipv4 a) ≤ 15)
show_ipv4-plain a h = octets-plain a.octets h.0 h.1
