-- ===== src/Std/IpGraphic.antt =====
-- The text of every IP address is short and has only graphic characters.
use proxy_protocol_rs.Prelude.{
  ℕ, zero, suc, ◌+◌, ◌-◌, ◌*◌, ◌≤◌, ◌<◌, ◌≡◌, ap, inl, inr, ltb, ltb→lt, Bool-cases, if◌then◌else◌,
  ◌==◌, List, [], ◌∷◌, length, length-append, take, drop, length-take, length-drop, All, All-append,
  All-take, All-drop, IsByte, arith,
}
use proxy_protocol_rs.Std.Net.{IpAddr, v4, v6, Ipv4Addr, Ipv6Addr, IsIpv4, IsIpv6, IsIp, IsPort}
use proxy_protocol_rs.Std.IpDisplay.{
  digit_char, show_dec, show_hex, segments, Span, longest_zeros, show_segments, is_mapped,
  show_groups, show_ipv4, show_ipv6, show_ip,
}
use proxy_protocol_rs.Std.Hex.{hex-All, hex_four}
use proxy_protocol_rs.Std.Plain.{IsPlainByte, show_ipv4-plain, show-IsPlainByte, length_five}

-- `u8::is_ascii_graphic`: neither a space nor a control character
abbrev pub IsGraphic : ℕ → Type 0
IsGraphic b = (33 ≤ b) × (b < 127)

digit-IsGraphic : (d : ℕ) → d < 16 → IsGraphic (digit_char d)
digit-IsGraphic d h = elim (Bool-cases (ltb d 10)) [
  | inl e ↦ let lt = ltb→lt d 10 e in rw e (omega arith, omega arith)
  | inr e ↦ rw e (omega arith, omega arith)
]

-- Graphic text of at most so many bytes
abbrev pub IsShort : ℕ → List ℕ → Type 0
IsShort k t = All IsGraphic t × (length t ≤ k)

show_hex-IsShort : (g : ℕ) → IsPort g → IsShort 4 (show_hex g)
unfolding show_hex
show_hex-IsShort g h = (hex-All IsGraphic digit-IsGraphic (suc g) g, hex_four (suc g) g h)

colon : IsGraphic 58
colon = (omega arith, omega arith)

-- Four digits and a colon for every group but the last
show_segments-IsShort :
    (gs : List ℕ)
    → All IsPort gs
    → All IsGraphic (show_segments gs) × (length (show_segments gs) ≤ 5 * length gs - 1)
show_segments-IsShort [] h = (tt, omega arith)
show_segments-IsShort (g ∷ []) h =
    let (graphic, len) = show_hex-IsShort g h.0 in (graphic, omega arith)
show_segments-IsShort (g ∷ f ∷ gs) h =
    let (graphic, len) = show_hex-IsShort g h.0 in
    let (rest, short) = show_segments-IsShort (f ∷ gs) h.1 in
    (
      All-append IsGraphic (show_hex g) (58 ∷ show_segments (f ∷ gs)) graphic (colon, rest),
      omega (arith, length-append (show_hex g) (58 ∷ show_segments (f ∷ gs))),
    )

-- The run found ends at the group looked at, and the longest one so far not behind it.
longest-fits :
    (i : ℕ) (gs : List ℕ) (current longest : Span)
    → current.start + current.len ≤ i
    → longest.start + longest.len ≤ i
    → ((longest_zeros i gs current longest).start + (longest_zeros i gs current longest).len)
      ≤ i + length gs
unfolding longest_zeros
longest-fits i [] current longest h k = omega (arith, k)
longest-fits i (g ∷ gs) current longest h k =
    let start' = if current.len == 0 then i else current.start in
    let grown : Span = record { start = start'; len = current.len + 1 } in
    let current' : Span = if g == 0 then grown else record { start = 0; len = 0 } in
    let fits : current'.start + current'.len ≤ i + 1 = ground arith in
    let best : Span = if ltb longest.len current'.len then current' else longest in
    let fits' : best.start + best.len ≤ i + 1 = ground arith in
    omega (arith, longest-fits (i + 1) gs current' best fits fits')

show_groups-IsShort : (gs : List ℕ) → length gs ≡ 8 → All IsPort gs → IsShort 39 (show_groups gs)
unfolding show_groups
show_groups-IsShort gs e h =
    let none_yet : Span = record { start = 0; len = 0 } in
    let zeroes = longest_zeros 0 gs none_yet none_yet in
    let front = take zeroes.start gs in
    let back = drop (zeroes.start + zeroes.len) gs in
    let (front_ok, front_len) = show_segments-IsShort front (All-take IsPort zeroes.start gs h) in
    let (back_ok, back_len) =
      show_segments-IsShort back (All-drop IsPort (zeroes.start + zeroes.len) gs h) in
    let (all_ok, all_len) = show_segments-IsShort gs h in
    elim (Bool-cases (ltb 1 zeroes.len)) [
      | inl c ↦ rw c (
        All-append IsGraphic (show_segments front) (58 ∷ 58 ∷ show_segments back) front_ok
            (colon, (colon, back_ok)),
        omega (
          arith,
          ltb→lt 1 zeroes.len c,
          length-append (show_segments front) (58 ∷ 58 ∷ show_segments back),
          length-take zeroes.start gs,
          length-drop (zeroes.start + zeroes.len) gs,
          longest-fits 0 gs none_yet none_yet (omega arith) (omega arith),
        ),
      )
      | inr c ↦ rw c (all_ok, omega arith)
    ]

pub segments-AreGroups :
    (os : List ℕ) (n : ℕ)
    → length os ≡ 2 * n
    → All IsByte os
    → (length (segments os) ≡ n) × All IsPort (segments os)
segments-AreGroups [] n e h = (omega arith, tt)
segments-AreGroups (a ∷ []) n e h = absurd (omega arith)
segments-AreGroups (a ∷ b ∷ os) zero e h = absurd (omega arith)
segments-AreGroups (a ∷ b ∷ os) (suc n) e (ha, (hb, h)) =
    let (len, all) = segments-AreGroups os n (omega arith) h in (ap suc len, (omega arith, all))

plain-IsGraphic : (t : List ℕ) → All IsPlainByte t → All IsGraphic t
plain-IsGraphic [] h = tt
plain-IsGraphic (b ∷ t) h = ((omega arith, omega arith), plain-IsGraphic t h.1)

-- The text of an IPv4 address
show_ipv4-IsShort : (a : Ipv4Addr) → IsIpv4 a → IsShort 15 (show_ipv4 a)
show_ipv4-IsShort a h =
    let (plain, len) = show_ipv4-plain a h in (plain-IsGraphic (show_ipv4 a) plain, len)

-- A mapped address is 7 characters and an IPv4 address.
mapped-IsShort : (t : List ℕ) → IsShort 15 t → IsShort 39 (58 ∷ 58 ∷ 102 ∷ 102 ∷ 102 ∷ 102 ∷ 58 ∷ t)
mapped-IsShort t (graphic, len) =
    let f : IsGraphic 102 = (omega arith, omega arith) in
    ((colon, (colon, (f, (f, (f, (f, (colon, graphic))))))), omega arith)

show_ipv6-IsShort : (a : Ipv6Addr) → IsIpv6 a → IsShort 39 (show_ipv6 a)
unfolding show_ipv6
show_ipv6-IsShort a (e, h) =
    let (len, all) = segments-AreGroups a.octets 8 e h in
    let tail : Ipv4Addr = record { octets = drop 12 a.octets } in
    let four : IsIpv4 tail =
      (omega (arith, length-drop 12 a.octets), All-drop IsByte 12 a.octets h) in
    elim (Bool-cases (is_mapped (segments a.octets))) [
      | inl m ↦ rw m (mapped-IsShort (show_ipv4 tail) (show_ipv4-IsShort tail four))
      | inr m ↦ rw m (show_groups-IsShort (segments a.octets) len all)
    ]

-- The text of an IP address has 39 characters at most.
pub show_ip-IsShort : (ip : IpAddr) → IsIp ip → IsShort 39 (show_ip ip)
unfolding show_ip
show_ip-IsShort (v4 a) h = let (graphic, len) = show_ipv4-IsShort a h in (graphic, omega arith)
show_ip-IsShort (v6 a) h = show_ipv6-IsShort a h

-- A port is written in 5 characters at most.
pub show_port-IsShort : (n : ℕ) → IsPort n → IsShort 5 (show_dec n)
unfolding show_dec
show_port-IsShort n h = (
  plain-IsGraphic (show_dec n) (show-IsPlainByte (suc n) n (omega arith)),
  length_five (suc n) n (omega arith) (omega arith),
)
