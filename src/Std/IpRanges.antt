-- ===== src/Std/IpRanges.antt =====
-- The values that the parsers of ports and IP addresses give are values of their types.
use proxy_protocol_rs.Prelude.{
  ℕ, zero, suc, ◌+◌, ◌-◌, ◌*◌, ◌≤◌, ◌<◌, ◌≡◌, refl, ap, inl, inr, Bool, true, false, ◌==◌, ==_iff,
  ltb, ltb→lt, lt→ltb, le→ltb, ltb_false→le, Bool-cases, if◌then◌else◌, Option, none, some,
  and_then, OnSome, OnSome-and_then, OnSome-bind, List, [], ◌∷◌, ◌++◌, length, length-append,
  length-replicate, replicate, All, IsByte, arith,
}
use proxy_protocol_rs.Std.Net.{Ipv4Addr, Ipv6Addr, IpAddr, v4, v6, IsIpv4, IsIpv6, IsIp, IsPort}
use proxy_protocol_rs.Std.IpText.{
  to_digit, parse_u16_digits, parse_u16, read_digits, read_number, read_given, read_separator,
  read_octets, read_ipv4, groups_of, Groups, add_group, read_groups, octets_of_groups, ipv6_from,
  read_tail, read_ipv6, all_read, read_ip, parse_ip,
}

parse_u16_digits-IsPort :
    (bs : List ℕ) (acc : ℕ) → acc < 65536 → OnSome IsPort (parse_u16_digits bs acc)
unfolding parse_u16_digits
parse_u16_digits-IsPort [] acc h = h
parse_u16_digits-IsPort (b ∷ bs) acc h =
    elim (to_digit 10 b)
      as (λ o. OnSome IsPort (elim o as (λ k. Option ℕ) [
        | none ↦ none
        | some d ↦ if ltb (acc * 10 + d) 65536 then parse_u16_digits bs (acc * 10 + d) else none
      ])) [
        | none ↦ tt
        | some d ↦ elim (Bool-cases (ltb (acc * 10 + d) 65536)) [
          | inl lt ↦ rw lt (parse_u16_digits-IsPort bs (acc * 10 + d) (ltb→lt _ _ lt))
          | inr ge ↦ rw ge tt
        ]
      ]

pub parse_u16-IsPort : (bs : List ℕ) → OnSome IsPort (parse_u16 bs)
unfolding parse_u16
parse_u16-IsPort [] = tt
parse_u16-IsPort (b ∷ []) = parse_u16_digits-IsPort (b ∷ []) 0 (omega arith)
parse_u16-IsPort (b ∷ c ∷ bs) = elim (Bool-cases (b == b'+')) [
  | inl e ↦ rw e (parse_u16_digits-IsPort (c ∷ bs) 0 (omega arith))
  | inr e ↦ rw e (parse_u16_digits-IsPort (b ∷ c ∷ bs) 0 (omega arith))
]

-- A choice between `none` and a value
abbrev Below : ℕ → ℕ × List ℕ → Type 0
Below limit p = p.0 < limit

limited :
    (limit n : ℕ) (rest : List ℕ) (zero_digits led : Bool)
    → OnSome (Below limit) (
        if zero_digits
        then none
        else if led
        then none
        else if ltb n limit
        then some (n, rest)
        else none)
limited limit n rest true led = tt
limited limit n rest false true = tt
limited limit n rest false false = elim (Bool-cases (ltb n limit)) [
  | inl e ↦ rw e (ltb→lt _ _ e)
  | inr e ↦ rw e tt
]

read_number-Below :
    (radix max_digits : ℕ) (allow : Bool) (limit : ℕ) (bytes : List ℕ)
    → OnSome (Below limit) (read_number radix max_digits allow limit bytes)
unfolding read_number
read_number-Below radix max_digits allow limit bytes =
    OnSome-bind (Below limit) _ (read_digits radix max_digits bytes 0 0)
      λ (n, count, rest). limited limit n rest _ _

abbrev AreOctets : ℕ → List ℕ × List ℕ → Type 0
AreOctets n p = (length p.0 ≡ n) × All IsByte p.0

read_octets-AreOctets : (n i : ℕ) (bytes : List ℕ) → OnSome (AreOctets n) (read_octets n i bytes)
unfolding read_octets
read_octets-AreOctets zero i bytes = (refl, tt)
read_octets-AreOctets (suc n) i bytes =
    OnSome-bind (AreOctets (suc n)) _ (read_separator b'.' i bytes) λ after.
      OnSome-and_then (Below 256) (AreOctets (suc n)) _ (read_number 10 3 false 256 after)
        (λ (octet, rest) lt.
          OnSome-and_then (AreOctets n) (AreOctets (suc n)) _ (read_octets n (suc i) rest)
            (λ (octets, end) h. (ap suc h.0, (lt, h.1))) (read_octets-AreOctets n (suc i) rest))
        (read_number-Below 10 3 false 256 after)

abbrev Is4 : Ipv4Addr × List ℕ → Type 0
Is4 p = IsIpv4 p.0

read_ipv4-IsIpv4 : (bytes : List ℕ) → OnSome Is4 (read_ipv4 bytes)
unfolding read_ipv4
read_ipv4-IsIpv4 bytes =
    OnSome-and_then (AreOctets 4) Is4 _ (read_octets 4 0 bytes) (λ (os, rest) h. h)
      (read_octets-AreOctets 4 0 bytes)

-- Groups of 16 bits, at most so many
abbrev AreGroups : ℕ → List ℕ → Type 0
AreGroups n gs = (length gs ≤ n) × All IsPort gs

groups_of-AreGroups : (os : List ℕ) (n : ℕ) → 2 ≤ n → All IsByte os → AreGroups n (groups_of os)
groups_of-AreGroups [] n k h = (omega arith, tt)
groups_of-AreGroups (a ∷ []) n k h = (omega arith, tt)
groups_of-AreGroups (a ∷ b ∷ []) n k h = (omega arith, tt)
groups_of-AreGroups (a ∷ b ∷ c ∷ []) n k h = (omega arith, tt)
groups_of-AreGroups (a ∷ b ∷ c ∷ d ∷ r) n k h = (omega arith, (omega arith, (omega arith, tt)))

abbrev group_at : Option (ℕ × List ℕ) → ℕ → ℕ → List ℕ → Groups
group_at o n i bytes = elim o as (λ k. Groups) [
  | some (g, rest) ↦ add_group g (read_groups n (suc i) rest)
  | none ↦ record { groups = []; has_ipv4 = false; rest = bytes }
]

abbrev embedded_or : Option (Ipv4Addr × List ℕ) → Groups → Groups
embedded_or o g = elim o as (λ k. Groups) [
  | some (a, rest) ↦ record { groups = groups_of a.octets; has_ipv4 = true; rest = rest }
  | none ↦ g
]

embedded_or-AreGroups :
    (o : Option (Ipv4Addr × List ℕ)) (g : Groups) (n : ℕ)
    → (2 ≤ n → OnSome Is4 o)
    → ((n ≤ 1) → o ≡ none)
    → AreGroups n g.groups
    → AreGroups n (embedded_or o g).groups
embedded_or-AreGroups none g n h k r = r
embedded_or-AreGroups (some (a, rest)) g n h k r = elim (Bool-cases (ltb 1 n)) [
  | inl e ↦ groups_of-AreGroups a.octets n (ltb→lt 1 n e) (h (ltb→lt 1 n e)).1
  | inr e ↦ absurd (cc (k (ltb_false→le 1 n e)))
]

group_at-AreGroups :
    (o : Option (ℕ × List ℕ)) (n i : ℕ) (bytes : List ℕ)
    → OnSome (Below 65536) o
    → ((rest : List ℕ) → AreGroups n (read_groups n (suc i) rest).groups)
    → AreGroups (suc n) (group_at o n i bytes).groups
group_at-AreGroups none n i bytes h k = (omega arith, tt)
group_at-AreGroups (some (g, rest)) n i bytes h k =
    let (le, all) = k rest in (omega arith, (h, all))

read_groups-AreGroups : (n i : ℕ) (bytes : List ℕ) → AreGroups n (read_groups n i bytes).groups
unfolding read_groups
read_groups-AreGroups zero i bytes = (omega arith, tt)
read_groups-AreGroups (suc n) i bytes =
    let e = if ltb 0 n then and_then (read_separator b':' i bytes) read_ipv4 else none in
    let o = and_then (read_separator b':' i bytes) (read_number 16 4 true 65536) in
    embedded_or-AreGroups e (group_at o n i bytes) (suc n)
      (λ k.
        rw (lt→ltb 0 n (omega arith))
          (OnSome-bind Is4 read_ipv4 (read_separator b':' i bytes) (λ a. read_ipv4-IsIpv4 a)))
      (λ k. rw (le→ltb 0 n (omega arith)))
      (group_at-AreGroups o n i bytes
        (OnSome-bind (Below 65536) (read_number 16 4 true 65536) (read_separator b':' i bytes)
          (λ a. read_number-Below 16 4 true 65536 a))
        (λ rest. read_groups-AreGroups n (suc i) rest))

octets_of_groups-lem :
    (gs : List ℕ)
    → (length (octets_of_groups gs) ≡ 2 * length gs) × All IsByte (octets_of_groups gs)
octets_of_groups-lem [] = (omega arith, tt)
octets_of_groups-lem (g ∷ gs) =
    let (len, all) = octets_of_groups-lem gs in (omega arith, (omega arith, (omega arith, all)))

ipv6_from-IsIpv6 : (gs : List ℕ) → length gs ≡ 8 → IsIpv6 (ipv6_from gs)
ipv6_from-IsIpv6 gs h = let (len, all) = octets_of_groups-lem gs in (omega arith, all)

abbrev Is6 : Ipv6Addr × List ℕ → Type 0
Is6 p = IsIpv6 p.0

read_tail-IsIpv6 : (head bytes : List ℕ) → length head ≤ 7 → OnSome Is6 (read_tail head bytes)
unfolding read_tail
read_tail-IsIpv6 head bytes h = OnSome-bind Is6 _ (read_given b':' bytes) λ one.
    OnSome-bind Is6 _ (read_given b':' one) λ two.
      let tail = read_groups (8 - (length head + 1)) 0 two in
      let (le, all) = read_groups-AreGroups (8 - (length head + 1)) 0 two in
      let zeros = replicate (8 - length head - length tail.groups) 0 in
      ipv6_from-IsIpv6 (head ++ (zeros ++ tail.groups)) (
        omega (
          arith,
          length-append head (zeros ++ tail.groups),
          length-append zeros tail.groups,
          length-replicate (8 - length head - length tail.groups) (zero),
        ))

read_ipv6-IsIpv6 : (bytes : List ℕ) → OnSome Is6 (read_ipv6 bytes)
unfolding read_ipv6
read_ipv6-IsIpv6 bytes =
    let head = read_groups 8 0 bytes in
    elim (Bool-cases (length head.groups == 8)) [
      | inl e ↦ rw e (ipv6_from-IsIpv6 head.groups ((==_iff _ _).0 e))
      | inr e ↦ elim (Bool-cases head.has_ipv4) [
        | inl f ↦ rw (e, f) tt
        | inr f ↦
            rw (e, f)
              (read_tail-IsIpv6 head.groups head.rest
                (ground (arith, read_groups-AreGroups 8 0 bytes)))
      ]
    ]

abbrev v4_or : List ℕ → Option (Ipv4Addr × List ℕ) → Option (IpAddr × List ℕ)
v4_or bytes o = elim o as (λ k. Option (IpAddr × List ℕ)) [
  | some (a, rest) ↦ some (v4 a, rest)
  | none ↦ and_then (read_ipv6 bytes) λ (a, rest). some (v6 a, rest)
]

v4_or-IsIp :
    (bytes : List ℕ) (o : Option (Ipv4Addr × List ℕ))
    → OnSome Is4 o
    → OnSome (λ p. IsIp p.0) (v4_or bytes o)
v4_or-IsIp bytes (some (a, rest)) h = h
v4_or-IsIp bytes none h =
    OnSome-and_then Is6 (λ p. IsIp p.0) _ (read_ipv6 bytes) (λ (a, rest) k. k)
      (read_ipv6-IsIpv6 bytes)

read_ip-IsIp : (bytes : List ℕ) → OnSome (λ p. IsIp p.0) (read_ip bytes)
read_ip-IsIp bytes = v4_or-IsIp bytes (read_ipv4 bytes) (read_ipv4-IsIpv4 bytes)

pub parse_ip-IsIp : (bytes : List ℕ) → OnSome IsIp (parse_ip bytes)
unfolding parse_ip
parse_ip-IsIp bytes =
    OnSome-and_then (λ p. IsIp p.0) IsIp all_read (read_ip bytes) read_to_end (read_ip-IsIp bytes)
  where
    read_to_end : (p : IpAddr × List ℕ) → IsIp p.0 → OnSome IsIp (all_read p)
    read_to_end (a, []) h = h
    read_to_end (a, b ∷ bs) h = tt
