-- ===== src/Parse/V2/Ranges.antt =====
-- The addresses that parse/v2.rs reads are values of their types.
use proxy_protocol_rs.Prelude.{
  ℕ, zero, suc, refl, ◌-◌, ◌≤◌, ◌≡◌, inl, inr, ltb, Bool-cases, ◌==◌, ◌||◌, List, [], ◌∷◌, length,
  All, All-drop, All-take, IsByte, OnSome, Outcome, index, slice, fail_if, ◌>>=◌, take, drop,
  length-take, length-drop, OnOk, OnOk->>=, OnOk-bind, OnOk->>, OnOk-ok, leb, ◌&&◌, arith,
}
use proxy_protocol_rs.Std.Net.{IsIpv6}
use proxy_protocol_rs.Types.{
  Command, local, proxy, unix, Transport, AddressFamily, inet4, inet6, unix_family,
}
use proxy_protocol_rs.Types.Ranges.{IsAddress}
use proxy_protocol_rs.Error.{ParseError, invalid, payload_overflow, unspec_with_proxy}
use proxy_protocol_rs.Parse.V2.{
  Addresses, extract_unix_path, family_of, protocol_of, ipv6_of, parse_inet, parse_inet6,
  parse_unix, parse_family, parse_v2_addresses, addresses_of,
}

abbrev pub AreAddresses : Addresses → Type 0
AreAddresses a = OnSome IsAddress a.source × OnSome IsAddress a.destination

pub index-IsByte : (xs : List ℕ) (i : ℕ) → All IsByte xs → OnOk {E = ParseError} IsByte (index xs i)
index-IsByte [] i h = record { on_ok = λ a e. cc }
index-IsByte (x ∷ xs) zero h = OnOk-ok x h.0
index-IsByte (x ∷ xs) (suc i) h = index-IsByte xs i h.1

-- Bytes, and how many
abbrev AreBytes : ℕ → List ℕ → Type 0
AreBytes n xs = All IsByte xs × (length xs ≡ n)

slice-AreBytes :
    (xs : List ℕ) (i j : ℕ)
    → All IsByte xs
    → OnOk {E = ParseError} (AreBytes (j - i)) (slice xs i j)
slice-AreBytes xs i j h = elim (Bool-cases (leb i j && leb j (length xs))) [
  | inr e ↦ rw e (record { on_ok = λ a q. cc })
  | inl e ↦
      let le : j ≤ length xs = ground arith in
      rw e (
        OnOk-ok (take (j - i) (drop i xs)) (
          All-take IsByte (j - i) (drop i xs) (All-drop IsByte i xs h),
          omega (arith, length-take (j - i) (drop i xs), length-drop i xs),
        ))
]

ipv6_of-IsIpv6 : (xs : List ℕ) → AreBytes 16 xs → OnOk IsIpv6 (ipv6_of xs)
ipv6_of-IsIpv6 xs h = elim (Bool-cases (length xs == 16)) [
  | inr e ↦ rw e (record { on_ok = λ a q. cc })
  | inl e ↦ rw e (OnOk-ok (record { octets = xs }) (h.1, h.0))
]

extract_unix_path-AreBytes :
    (xs : List ℕ)
    → All IsByte xs
    → All IsByte (extract_unix_path xs) × (length (extract_unix_path xs) ≤ length xs)
unfolding extract_unix_path
extract_unix_path-AreBytes [] h = (tt, omega arith)
extract_unix_path-AreBytes (b ∷ bs) h =
    let (all, le) = extract_unix_path-AreBytes bs h.1 in
    elim (Bool-cases (b == 0)) [
      | inl e ↦ rw e (tt, omega arith)
      | inr e ↦ rw e ((h.0, all), omega arith)
    ]

path-IsAddress : (xs : List ℕ) → AreBytes 108 xs → IsAddress (unix (extract_unix_path xs))
path-IsAddress xs h = let (all, le) = extract_unix_path-AreBytes xs h.0 in (all, omega (arith, h.1))

module _ (payload : List ℕ) (bytes : All IsByte payload) where
  at_byte :
      (i : ℕ) (f : ℕ → Outcome Addresses ParseError)
      → ((b : ℕ) → IsByte b → OnOk AreAddresses (f b))
      → OnOk AreAddresses (index payload i >>= f)
  at_byte i f h = OnOk->>= IsByte (index payload i) f (index-IsByte payload i bytes) h

  at_slice :
      (i j : ℕ) (f : List ℕ → Outcome Addresses ParseError)
      → ((xs : List ℕ) → AreBytes (j - i) xs → OnOk AreAddresses (f xs))
      → OnOk AreAddresses (slice payload i j >>= f)
  at_slice i j f h =
      OnOk->>= (AreBytes (j - i)) (slice payload i j) f (slice-AreBytes payload i j bytes) h

  family-AreAddresses :
      (f : AddressFamily) (t : Transport) → OnOk AreAddresses (parse_family f t payload)
  unfolding parse_inet parse_inet6 parse_unix
  family-AreAddresses inet4 t =
      OnOk->> (fail_if (ltb (length payload) 12) (invalid (payload_overflow 12 (length payload)))) _
        (at_byte 0 _ λ s0 h0. at_byte 1 _ λ s1 h1. at_byte 2 _ λ s2 h2. at_byte 3 _ λ s3 h3.
          at_byte 4 _ λ d0 k0. at_byte 5 _ λ d1 k1. at_byte 6 _ λ d2 k2. at_byte 7 _ λ d3 k3.
            at_byte 8 _ λ a ha. at_byte 9 _ λ b hb. at_byte 10 _ λ c hc. at_byte 11 _ λ d hd.
              OnOk-ok _ (
                ((refl, (h0, (h1, (h2, (h3, tt))))), omega arith),
                ((refl, (k0, (k1, (k2, (k3, tt))))), omega arith),
              ))
  family-AreAddresses inet6 t =
      OnOk->> (fail_if (ltb (length payload) 36) (invalid (payload_overflow 36 (length payload)))) _
        (at_slice 0 16 _ λ x hx. OnOk->>= IsIpv6 (ipv6_of x) _ (ipv6_of-IsIpv6 x hx) λ s hs.
          at_slice 16 32 _ λ y hy. OnOk->>= IsIpv6 (ipv6_of y) _ (ipv6_of-IsIpv6 y hy) λ d hd.
            at_byte 32 _ λ a ka. at_byte 33 _ λ b kb.
              at_byte 34 _
                λ c kc. at_byte 35 _ λ e ke. OnOk-ok _ ((hs, omega arith), (hd, omega arith)))
  family-AreAddresses unix_family t =
      OnOk->> (fail_if (ltb (length payload) 216) (invalid (payload_overflow 216 (length payload))))
        _
        (at_slice 0 108 _
          λ x hx. at_slice 108 216 _ λ y hy. OnOk-ok _ (path-IsAddress x hx, path-IsAddress y hy))

  pub addresses-AreAddresses :
      (cmd : Command) (f p : ℕ) → OnOk AreAddresses (addresses_of cmd f p payload)
  unfolding addresses_of parse_v2_addresses
  addresses-AreAddresses local f p = OnOk-ok _ (tt, tt)
  addresses-AreAddresses proxy f p =
      OnOk->> (fail_if (f == 0 || p == 0) (invalid unspec_with_proxy)) _ (
        OnOk-bind (family_of f) _
          λ family. OnOk-bind (protocol_of p) _ λ protocol. family-AreAddresses family _)
