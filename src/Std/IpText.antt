-- ===== src/Std/IpText.antt =====
-- `str::parse` at the types `u16` and `IpAddr`: the parsers of the standard library, over the bytes
-- of the text. A parser returns what it read and the bytes that follow, or `none`.
use proxy_protocol_rs.Prelude.{
  ℕ, zero, suc, ◌+◌, ◌-◌, ◌*◌, Bool, true, false, not, ◌==◌, ltb, leb, ◌&&◌, if◌then◌else◌, Option,
  none, some, and_then, List, [], ◌∷◌, ◌++◌, length, replicate, be16, to_be16,
}
use proxy_protocol_rs.Std.Net.{Ipv4Addr, Ipv6Addr, IpAddr, v4, v6}

-- `char::to_digit`, for a radix of at most 16
unfoldable pub to_digit : ℕ → ℕ → Option ℕ
to_digit radix b =
    let below = λ (d : ℕ). if ltb d radix then some d else none in
    if leb b'0' b && leb b b'9'
    then below (b - b'0')
    else if leb b'a' b && leb b b'f'
    then below (b - b'a' + 10)
    else if leb b'A' b && leb b b'F'
    then below (b - b'A' + 10)
    else none

-- `u16::from_str` after the sign; an overflow is an error.
unfoldable pub parse_u16_digits : List ℕ → ℕ → Option ℕ
parse_u16_digits [] acc = some acc
parse_u16_digits (b ∷ bs) acc = elim (to_digit 10 b) [
  | none ↦ none
  | some d ↦ if ltb (acc * 10 + d) 65536 then parse_u16_digits bs (acc * 10 + d) else none
]

-- `u16::from_str`: a leading `+` is skipped, and there must be a digit.
unfoldable pub parse_u16 : List ℕ → Option ℕ
unfolding parse_u16_digits to_digit
parse_u16 [] = none
parse_u16 (b ∷ []) = parse_u16_digits (b ∷ []) 0
parse_u16 (b ∷ c ∷ bs) =
    if b == b'+' then parse_u16_digits (c ∷ bs) 0 else parse_u16_digits (b ∷ c ∷ bs) 0

-- The digits in front: their value, their number and what follows; `none` for more than `max_digits`.
unfoldable pub read_digits : ℕ → ℕ → List ℕ → ℕ → ℕ → Option (ℕ × ℕ × List ℕ)
read_digits radix max_digits [] result count = some (result, count, [])
read_digits radix max_digits (b ∷ bs) result count = elim (to_digit radix b) [
  | none ↦ some (result, count, b ∷ bs)
  | some d ↦
      if ltb max_digits (count + 1)
      then none
      else read_digits radix max_digits bs (result * radix + d) (count + 1)
]

abbrev pub starts_with_zero : List ℕ → Bool
starts_with_zero [] = false
starts_with_zero (b ∷ bs) = b == b'0'

-- `read_number(radix, Some(max_digits), allow_zero_prefix)` into a type of values below `limit`
unfoldable pub read_number : ℕ → ℕ → Bool → ℕ → List ℕ → Option (ℕ × List ℕ)
unfolding read_digits to_digit
read_number radix max_digits allow_zero_prefix limit bytes =
    and_then (read_digits radix max_digits bytes 0 0) λ (result, count, rest).
      if count == 0
      then none
      else if not allow_zero_prefix && starts_with_zero bytes && ltb 1 count
      then none
      else if ltb result limit
      then some (result, rest)
      else none

-- `read_given_char`
abbrev pub read_given : ℕ → List ℕ → Option (List ℕ)
read_given c [] = none
read_given c (b ∷ bs) = if b == c then some bs else none

-- The separator that `read_separator` reads before every item but the first
abbrev pub read_separator : ℕ → ℕ → List ℕ → Option (List ℕ)
read_separator sep zero bytes = some bytes
read_separator sep (suc i) bytes = read_given sep bytes

-- The octets of `read_ipv4_addr` from the one numbered `i` on
unfoldable pub read_octets : ℕ → ℕ → List ℕ → Option (List ℕ × List ℕ)
read_octets zero i bytes = some ([], bytes)
read_octets (suc n) i bytes = and_then (read_separator b'.' i bytes) λ after.
    and_then (read_number 10 3 false 256 after) λ (octet, rest).
      and_then (read_octets n (suc i) rest) λ (octets, end). some (octet ∷ octets, end)

unfoldable pub read_ipv4 : List ℕ → Option (Ipv4Addr × List ℕ)
unfolding read_octets read_number
read_ipv4 bytes = and_then (read_octets 4 0 bytes) λ (os, rest). some (record { octets = os }, rest)

-- The octets as groups of 16 bits
abbrev pub groups_of : List ℕ → List ℕ
groups_of (a ∷ b ∷ c ∷ d ∷ r) = be16 a b ∷ be16 c d ∷ []
groups_of _ = []

-- What `read_groups` leaves: the groups read, whether the last two were an IPv4 address, and the
-- rest of the text.
pub record Groups : Type 0 where
  pub groups : List ℕ
  pub has_ipv4 : Bool
  pub rest : List ℕ

abbrev pub add_group : ℕ → Groups → Groups
add_group g r = record r { groups = g ∷ r.groups }

-- `read_groups` with `n` groups left, from the one numbered `i` on
unfoldable pub read_groups : ℕ → ℕ → List ℕ → Groups
unfolding read_ipv4 read_number
read_groups zero i bytes = record { groups = []; has_ipv4 = false; rest = bytes }
read_groups (suc n) i bytes =
    let embedded = if ltb 0 n then and_then (read_separator b':' i bytes) read_ipv4 else none in
    elim embedded [
      | some (a, rest) ↦ record { groups = groups_of a.octets; has_ipv4 = true; rest = rest }
      | none ↦ elim (and_then (read_separator b':' i bytes) (read_number 16 4 true 65536)) [
        | some (g, rest) ↦ add_group g (read_groups n (suc i) rest)
        | none ↦ record { groups = []; has_ipv4 = false; rest = bytes }
      ]
    ]

-- `Ipv6Addr::from([u16; 8])`
abbrev pub octets_of_groups : List ℕ → List ℕ
octets_of_groups [] = []
octets_of_groups (g ∷ gs) = to_be16 g ++ octets_of_groups gs

abbrev pub ipv6_from : List ℕ → Ipv6Addr
ipv6_from gs = record { octets = octets_of_groups gs }

-- What follows the head of a compressed address: the `::` and the groups behind it
unfoldable pub read_tail : List ℕ → List ℕ → Option (Ipv6Addr × List ℕ)
unfolding read_groups
read_tail head bytes = and_then (read_given b':' bytes) λ one. and_then (read_given b':' one) λ two.
    let tail = read_groups (8 - (length head + 1)) 0 two in
    let zeros = replicate (8 - length head - length tail.groups) 0 in
    some (ipv6_from (head ++ (zeros ++ tail.groups)), tail.rest)

unfoldable pub read_ipv6 : List ℕ → Option (Ipv6Addr × List ℕ)
unfolding read_tail
read_ipv6 bytes =
    let head = read_groups 8 0 bytes in
    if length head.groups == 8
    then some (ipv6_from head.groups, head.rest)
    else if head.has_ipv4
    then none
    else read_tail head.groups head.rest

abbrev pub all_read {ℓ} : {A : Type ℓ} → A × List ℕ → Option A
all_read (a, []) = some a
all_read (a, b ∷ bs) = none

abbrev pub read_ip : List ℕ → Option (IpAddr × List ℕ)
read_ip bytes = elim (read_ipv4 bytes) [
  | some (a, rest) ↦ some (v4 a, rest)
  | none ↦ and_then (read_ipv6 bytes) λ (a, rest). some (v6 a, rest)
]

-- `IpAddr::from_str`: the whole text must be read.
unfoldable pub parse_ip : List ℕ → Option IpAddr
unfolding read_ipv4 read_ipv6
parse_ip bytes = and_then (read_ip bytes) all_read
