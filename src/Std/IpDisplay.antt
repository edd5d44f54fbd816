-- ===== src/Std/IpDisplay.antt =====
-- `Display` for the integers and the IP addresses of the standard library, as bytes of ASCII text.
use proxy_protocol_rs.Prelude.{
  ℕ, zero, suc, ◌+◌, ◌-◌, ◌/◌, ◌%◌, Bool, false, ◌==◌, ltb, ◌&&◌, if◌then◌else◌, List, [], ◌∷◌,
  ◌++◌, take, drop, be16,
}
use proxy_protocol_rs.Std.Net.{Ipv4Addr, Ipv6Addr, IpAddr, v4, v6}

abbrev pub digit_char : ℕ → ℕ
digit_char d = if ltb d 10 then b'0' + d else b'a' + d - 10

-- The digits of `n` in the given radix, the first one first. A round divides by the radix, so `suc n`
-- rounds are enough.
unfoldable pub show_loop : ℕ → ℕ → ℕ → List ℕ
show_loop radix zero n = []
show_loop radix (suc fuel) n =
    let front = show_loop radix fuel (n / radix) in
    if ltb n radix then digit_char n ∷ [] else front ++ (digit_char (n % radix) ∷ [])

-- `{}` and `{:x}`
unfoldable pub show_dec : ℕ → List ℕ
unfolding show_loop
show_dec n = show_loop 10 (suc n) n

unfoldable pub show_hex : ℕ → List ℕ
unfolding show_loop
show_hex n = show_loop 16 (suc n) n

abbrev pub join : ℕ → List (List ℕ) → List ℕ
join sep [] = []
join sep (t ∷ []) = t
join sep (t ∷ u ∷ ts) = t ++ (sep ∷ join sep (u ∷ ts))

abbrev pub show_all : (ℕ → List ℕ) → List ℕ → List (List ℕ)
show_all show [] = []
show_all show (n ∷ ns) = show n ∷ show_all show ns

unfoldable pub show_ipv4 : Ipv4Addr → List ℕ
unfolding show_dec
show_ipv4 a = join b'.' (show_all show_dec a.octets)

-- `Ipv6Addr::segments`
abbrev pub segments : List ℕ → List ℕ
segments (a ∷ b ∷ r) = be16 a b ∷ segments r
segments _ = []

pub record Span : Type 0 where
  pub start : ℕ
  pub len : ℕ

-- The first longest run of zero segments, with `current` the run that ends before segment `i`
unfoldable pub longest_zeros : ℕ → List ℕ → Span → Span → Span
longest_zeros i [] current longest = longest
longest_zeros i (g ∷ gs) current longest =
    let start' = if current.len == 0 then i else current.start in
    let grown : Span = record { start = start'; len = current.len + 1 } in
    let current' : Span = if g == 0 then grown else record { start = 0; len = 0 } in
    longest_zeros (i + 1) gs current' (if ltb longest.len current'.len then current' else longest)

abbrev pub show_segments : List ℕ → List ℕ
show_segments gs = join b':' (show_all show_hex gs)

-- `to_ipv4_mapped`: ::ffff:a.b.c.d
abbrev pub is_mapped : List ℕ → Bool
is_mapped (g0 ∷ g1 ∷ g2 ∷ g3 ∷ g4 ∷ g5 ∷ r) =
    g0 == 0 && g1 == 0 && g2 == 0 && g3 == 0 && g4 == 0 && g5 == 0xffff
is_mapped _ = false

unfoldable pub show_groups : List ℕ → List ℕ
unfolding longest_zeros show_hex
show_groups gs =
    let none_yet : Span = record { start = 0; len = 0 } in
    let zeroes = longest_zeros 0 gs none_yet none_yet in
    if ltb 1 zeroes.len
    then show_segments (take zeroes.start gs)
      ++ (b':' ∷ b':' ∷ show_segments (drop (zeroes.start + zeroes.len) gs))
    else show_segments gs

unfoldable pub show_ipv6 : Ipv6Addr → List ℕ
unfolding show_groups show_ipv4
show_ipv6 a =
    if is_mapped (segments a.octets)
    then b':'
      ∷ b':'
      ∷ b'f'
      ∷ b'f'
      ∷ b'f'
      ∷ b'f'
      ∷ b':'
      ∷ show_ipv4 (record { octets = drop 12 a.octets })
    else show_groups (segments a.octets)

unfoldable pub show_ip : IpAddr → List ℕ
unfolding show_ipv4 show_ipv6
show_ip (v4 a) = show_ipv4 a
show_ip (v6 a) = show_ipv6 a
