-- ===== src/Std/Utf8.antt =====
-- `std::str::from_utf8` and `String::from_utf8_lossy`, which the parsers call: the decoder of the
-- standard library, one character at a time.
pub mod Append
use proxy_protocol_rs.Prelude.{
  ℕ, zero, suc, Bool, true, false, ◌&&◌, List, [], ◌∷◌, ◌++◌, ltb, leb, ◌==◌, if◌then◌else◌, length,
  take, drop, get_or,
}

abbrev pub within : ℕ → ℕ → ℕ → Bool
within lo hi b = leb lo b && leb b hi

abbrev pub is_continuation : ℕ → Bool
is_continuation = within 0x80 0xbf

-- The second byte of a character of three bytes: no overlong form and no surrogate.
unfoldable pub second_of_three : ℕ → ℕ → Bool
second_of_three b c =
    if b == 0xe0
    then within 0xa0 0xbf c
    else if b == 0xed
    then within 0x80 0x9f c
    else is_continuation c

-- The second byte of a character of four bytes: no overlong form and nothing above U+10FFFF.
unfoldable pub second_of_four : ℕ → ℕ → Bool
second_of_four b c =
    if b == 0xf0
    then within 0x90 0xbf c
    else if b == 0xf4
    then within 0x80 0x8f c
    else is_continuation c

-- What begins at the byte `b`, before the bytes `bs`: whether it is a whole character, and how many
-- bytes of `bs` belong to it. A byte out of bounds reads as 0, which is no continuation.
unfoldable pub first_char : ℕ → List ℕ → Bool × ℕ
unfolding second_of_three second_of_four
first_char b bs =
    if ltb b 0x80
    then (true, 0)
    else if within 0xc2 0xdf b
    then if is_continuation (get_or bs 0 0) then (true, 1) else (false, 0)
    else if within 0xe0 0xef b
    then if second_of_three b (get_or bs 0 0)
      then if is_continuation (get_or bs 1 0) then (true, 2) else (false, 1)
      else (false, 0)
    else if within 0xf0 0xf4 b
    then if second_of_four b (get_or bs 0 0)
      then if is_continuation (get_or bs 1 0)
        then if is_continuation (get_or bs 2 0) then (true, 3) else (false, 2)
        else (false, 1)
      else (false, 0)
    else (false, 0)

-- A round takes a byte at least, so `length bs` rounds are enough.
unfoldable pub is_utf8_loop : ℕ → List ℕ → Bool
is_utf8_loop fuel [] = true
is_utf8_loop zero (b ∷ bs) = false
is_utf8_loop (suc fuel) (b ∷ bs) =
    (first_char b bs).0 && is_utf8_loop fuel (drop (first_char b bs).1 bs)

-- `from_utf8(bs).is_ok()`
unfoldable pub is_utf8 : List ℕ → Bool
unfolding is_utf8_loop first_char
is_utf8 bs = is_utf8_loop (length bs) bs

-- U+FFFD
abbrev pub replacement : List ℕ
replacement = 0xef ∷ 0xbf ∷ 0xbd ∷ []

unfoldable pub lossy_char : ℕ → List ℕ → List ℕ
lossy_char b bs = if (first_char b bs).0 then b ∷ take (first_char b bs).1 bs else replacement

unfoldable pub lossy_loop : ℕ → List ℕ → List ℕ
lossy_loop fuel [] = []
lossy_loop zero (b ∷ bs) = []
lossy_loop (suc fuel) (b ∷ bs) = lossy_char b bs ++ lossy_loop fuel (drop (first_char b bs).1 bs)

-- `String::from_utf8_lossy(bs)`
unfoldable pub from_utf8_lossy : List ℕ → List ℕ
unfolding lossy_loop lossy_char first_char
from_utf8_lossy bs = lossy_loop (length bs) bs
