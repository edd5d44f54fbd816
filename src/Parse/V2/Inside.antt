-- ===== src/Parse/V2/Inside.antt =====
-- `parse_v2_addresses` of parse/v2.rs on any payload.
use proxy_protocol_rs.Prelude.{
  ℕ, ◌≤◌, ◌≡◌, subst, inl, inr, List, ◌∷◌, length, take, drop, slice_lem, index_lem, length-take,
  length-drop, Bool-cases, ltb, le→ltb, ltb_false→le, ◌==◌, ==_iff, ◌||◌, Outcome, ok, err, panic,
  stuck, Returns, ◌>>=◌, arith,
}
use proxy_protocol_rs.Types.{
  Command, local, proxy, AddressFamily, inet4, inet6, unix_family, Transport,
}
use proxy_protocol_rs.Error.{ParseError}
use proxy_protocol_rs.Parse.V2.{
  Addresses, family_of, protocol_of, parse_inet, ipv6_of, parse_inet6, parse_unix, parse_family,
  parse_v2_addresses, addresses_of,
}

-- The call comes back, and the TLVs of what it returns begin inside the payload.
abbrev pub Inside : List ℕ → Outcome Addresses ParseError → Type 0
Inside payload (ok a) = a.tlv_offset ≤ length payload
Inside payload (err e) = Unit {0}
Inside payload panic = ⊥
Inside payload stuck = ⊥

parse_inet-Inside : (t : Transport) (payload : List ℕ) → Inside payload (parse_inet t payload)
unfolding parse_inet
parse_inet-Inside t (a0 ∷ a1 ∷ a2 ∷ a3 ∷ a4 ∷ a5 ∷ a6 ∷ a7 ∷ a8 ∷ a9 ∷ a10 ∷ a11 ∷ rest) =
    let xs = a0 ∷ a1 ∷ a2 ∷ a3 ∷ a4 ∷ a5 ∷ a6 ∷ a7 ∷ a8 ∷ a9 ∷ a10 ∷ a11 ∷ rest in
    rw (le→ltb (length xs) 12 (omega arith)) (omega arith)
parse_inet-Inside t _ = tt

pub ipv6_of_lem : (xs : List ℕ) → length xs ≡ 16 → ipv6_of xs ≡ ok (record { octets = xs })
ipv6_of_lem xs h = rw ((==_iff (length xs) 16).1 h)

parse_inet6-Inside : (t : Transport) (payload : List ℕ) → Inside payload (parse_inet6 t payload)
unfolding parse_inet6
parse_inet6-Inside t payload = elim (Bool-cases (ltb (length payload) 36)) [
  | inl short ↦ rw short tt
  | inr long ↦
      let fits : 36 ≤ length payload = ltb_false→le _ _ long in
      let (p0, i0) = index_lem {E = ParseError} payload 32 (omega arith) in
      let (p1, i1) = index_lem {E = ParseError} payload 33 (omega arith) in
      let (p2, i2) = index_lem {E = ParseError} payload 34 (omega arith) in
      let (p3, i3) = index_lem {E = ParseError} payload 35 (omega arith) in
      rw
        (
          long,
          slice_lem {E = ParseError} payload 0 16 (omega arith) (omega arith),
          ipv6_of_lem (take 16 payload) (omega (arith, length-take 16 payload)),
          slice_lem {E = ParseError} payload 16 32 (omega arith) (omega arith),
          ipv6_of_lem (take 16 (drop 16 payload))
              (omega (arith, length-take 16 (drop 16 payload), length-drop 16 payload)),
          i0,
          i1,
          i2,
          i3,
        )
        fits
]

parse_unix-Inside : (t : Transport) (payload : List ℕ) → Inside payload (parse_unix t payload)
unfolding parse_unix
parse_unix-Inside t payload = elim (Bool-cases (ltb (length payload) 216)) [
  | inl short ↦ rw short tt
  | inr long ↦
      let fits : 216 ≤ length payload = ltb_false→le _ _ long in
      rw
        (
          long,
          slice_lem {E = ParseError} payload 0 108 (omega arith) (omega arith),
          slice_lem {E = ParseError} payload 108 216 (omega arith) (omega arith),
        )
        fits
]

parse_family-Inside :
    (f : AddressFamily) (t : Transport) (payload : List ℕ)
    → Inside payload (parse_family f t payload)
parse_family-Inside inet4 = parse_inet-Inside
parse_family-Inside inet6 = parse_inet6-Inside
parse_family-Inside unix_family = parse_unix-Inside

Inside->>= :
    {A : Type 0} (payload : List ℕ) (r : Outcome A ParseError)
    (f : A → Outcome Addresses ParseError)
    → Returns r
    → ((a : A) → Inside payload (f a))
    → Inside payload (r >>= f)
Inside->>= payload (ok a) f h k = k a
Inside->>= payload (err e) f h k = tt
Inside->>= payload panic f h k = absurd h
Inside->>= payload stuck f h k = absurd h

pub family_of-Returns : (n : ℕ) → Returns (family_of n)
unfolding family_of
family_of-Returns n = ground arith

pub protocol_of-Returns : (n : ℕ) → Returns (protocol_of n)
unfolding protocol_of
protocol_of-Returns n = ground arith

pub addresses_of-Inside :
    (cmd : Command) (family_nibble proto_nibble : ℕ) (payload : List ℕ)
    → Inside payload (addresses_of cmd family_nibble proto_nibble payload)
unfolding addresses_of parse_v2_addresses
addresses_of-Inside local f p payload = omega arith
addresses_of-Inside proxy f p payload = elim (Bool-cases (f == 0 || p == 0)) [
  | inl unspec ↦ rw unspec tt
  | inr spec ↦ rw spec (
      Inside->>= payload (family_of f) _ (family_of-Returns f) (λ family.
        Inside->>= payload (protocol_of p) _ (protocol_of-Returns p)
          (λ protocol. parse_family-Inside family _ payload)))
]

pub Inside-Returns :
    (payload : List ℕ) (r : Outcome Addresses ParseError) → Inside payload r → Returns r
Inside-Returns payload (ok a) h = tt
Inside-Returns payload (err e) h = tt
Inside-Returns payload panic h = absurd h
Inside-Returns payload stuck h = absurd h

pub Inside-ok :
    (payload : List ℕ) {r : Outcome Addresses ParseError} {a : Addresses}
    → Inside payload r
    → r ≡ ok a
    → a.tlv_offset ≤ length payload
Inside-ok payload h e = subst (Inside payload) e h
