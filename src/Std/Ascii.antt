-- ===== src/Std/Ascii.antt =====
-- Text of ASCII bytes.
use proxy_protocol_rs.Prelude.{
  ℕ, zero, suc, ◌≤◌, ◌<◌, ◌≡◌, refl, true, lt→ltb, List, [], ◌∷◌, length, All, arith,
}
use proxy_protocol_rs.Std.Utf8.{is_utf8, is_utf8_loop, first_char}

ascii_loop :
    (v : List ℕ) (fuel : ℕ) → length v ≤ fuel → All (λ b. b < 0x80) v → is_utf8_loop fuel v ≡ true
unfolding is_utf8_loop first_char
ascii_loop [] fuel h a = refl
ascii_loop (b ∷ bs) zero h a = absurd (omega arith)
ascii_loop (b ∷ bs) (suc fuel) h a = rw (lt→ltb b 0x80 a.0) (ascii_loop bs fuel (omega arith) a.1)

-- ASCII is UTF-8.
pub ascii-is_utf8 : (v : List ℕ) → All (λ b. b < 0x80) v → is_utf8 v ≡ true
unfolding is_utf8
ascii-is_utf8 v a = ascii_loop v (length v) (omega arith) a
