-- ===== src/Std/Ipv6Text.antt =====
-- IPv6 addresses: `Display` against `IpAddr::from_str`.
use proxy_protocol_rs.Prelude.{
  ℕ, zero, suc, ◌+◌, ◌*◌, ◌/◌, ◌%◌, ◌≡◌, refl, sym, ap, ◌∙◌, subst, inl, inr, true, Bool-cases,
  Option, none, some, and_then, List, [], ◌∷◌, ◌++◌, length, drop, length-drop, All, All-drop,
  IsByte, arith,
}
use proxy_protocol_rs.Std.Net.{Ipv4Addr, Ipv6Addr, IpAddr, v4, v6, IsIpv4, IsIpv6, IsIp}
use proxy_protocol_rs.Std.IpText.{
  read_ipv4, add_group, read_groups, groups_of, octets_of_groups, read_ipv6, all_read, parse_ip,
}
use proxy_protocol_rs.Std.IpDisplay.{
  show_hex, show_loop, segments, is_mapped, show_ipv4, show_ipv6, show_ip,
}
use proxy_protocol_rs.Std.HexGroup.{at_colon, no_ipv4}
use proxy_protocol_rs.Std.Ipv6Groups.{colons, group_step, embedded_step, read_groups-show_segments}
use proxy_protocol_rs.Std.IpGraphic.{segments-AreGroups}
use proxy_protocol_rs.Std.Ipv4Text.{read_ipv4-show_ipv4, parse_ip-show_ipv4}
use proxy_protocol_rs.Std.Ipv6Read.{tail_read, IsRead, show_groups-IsRead}

-- The bytes that `is_mapped` looks for, and an IPv4 address behind them
abbrev mapped_text : List ℕ → List ℕ
mapped_text t = 58 ∷ 58 ∷ 102 ∷ 102 ∷ 102 ∷ 102 ∷ 58 ∷ t

ffff : show_hex 65535 ≡ 102 ∷ 102 ∷ 102 ∷ 102 ∷ []
unfolding show_hex show_loop
ffff = refl

mapped_tail :
    (a : Ipv4Addr)
    → IsIpv4 a
    → read_groups 7 0 (102 ∷ 102 ∷ 102 ∷ 102 ∷ 58 ∷ show_ipv4 a)
      ≡ record { groups = 65535 ∷ groups_of a.octets; has_ipv4 = true; rest = [] }
mapped_tail a h =
    let t = show_ipv4 a in
    group_step 6 0 65535 (102 ∷ 102 ∷ 102 ∷ 102 ∷ 58 ∷ t) (58 ∷ t)
      (ap (λ x. some (x ++ (58 ∷ t))) (sym ffff)) (omega arith) (at_colon t)
    ∙ ap (add_group 65535) (embedded_step 4 1 a (58 ∷ t) t [] refl (read_ipv4-show_ipv4 a h))

mapped-IsRead :
    (a : Ipv4Addr) (x y : ℕ)
    → IsIpv4 a
    → groups_of a.octets ≡ x ∷ y ∷ []
    → IsRead (0 ∷ 0 ∷ 0 ∷ 0 ∷ 0 ∷ 65535 ∷ x ∷ y ∷ []) (mapped_text (show_ipv4 a))
mapped-IsRead a x y h e =
    let text = mapped_text (show_ipv4 a) in
    let r = 102 ∷ 102 ∷ 102 ∷ 102 ∷ 58 ∷ show_ipv4 a in
    (
      no_ipv4 [] text tt (at_colon (58 ∷ r)),
      tail_read text [] r (record { groups = 65535 ∷ x ∷ y ∷ []; has_ipv4 = true; rest = [] })
          (read_groups-show_segments [] 8 text (omega arith) tt (colons r)) (omega arith)
          (mapped_tail a h
            ∙ ap (λ (gs : List ℕ). record { groups = 65535 ∷ gs; has_ipv4 = true; rest = [] }) e),
    )

-- The last two groups are the IPv4 address.
last_groups : (os : List ℕ) → length os ≡ 16 → groups_of (drop 12 os) ≡ drop 6 (segments os)
last_groups (a ∷ b ∷ c ∷ d ∷ e ∷ f ∷ g ∷ h ∷ i ∷ j ∷ k ∷ l ∷ m ∷ n ∷ o ∷ p ∷ []) len = refl
last_groups _ len = absurd (omega arith)

mapped_groups :
    (gs : List ℕ)
    → length gs ≡ 8
    → is_mapped gs ≡ true
    → (x y : ℕ) × (drop 6 gs ≡ x ∷ y ∷ []) × (gs ≡ 0 ∷ 0 ∷ 0 ∷ 0 ∷ 0 ∷ 65535 ∷ x ∷ y ∷ [])
mapped_groups (a ∷ b ∷ c ∷ d ∷ e ∷ f ∷ x ∷ y ∷ []) len h =
    let az : a ≡ 0 = ground arith in
    let bz : b ≡ 0 = ground arith in
    let cz : c ≡ 0 = ground arith in
    let dz : d ≡ 0 = ground arith in
    let ez : e ≡ 0 = ground arith in
    let fz : f ≡ 65535 = ground arith in (x, y, refl, rw (az, bz, cz, dz, ez, fz))
mapped_groups _ len h = absurd (omega arith)

octets-segments :
    (os : List ℕ) (n : ℕ) → length os ≡ 2 * n → All IsByte os → octets_of_groups (segments os) ≡ os
octets-segments [] n e h = refl
octets-segments (a ∷ []) n e h = absurd (omega arith)
octets-segments (a ∷ b ∷ os) zero e h = absurd (omega arith)
octets-segments (a ∷ b ∷ os) (suc n) e (ha, (hb, h)) =
    let high : (a * 256 + b) / 256 % 256 ≡ a = omega arith in
    let low : (a * 256 + b) % 256 ≡ b = omega arith in
    rw (high, low, octets-segments os n (omega arith) h)

show_ipv6-IsRead : (a : Ipv6Addr) → IsIpv6 a → IsRead (segments a.octets) (show_ipv6 a)
unfolding show_ipv6
show_ipv6-IsRead a (e, h) =
    let gs = segments a.octets in
    let (len, all) = segments-AreGroups a.octets 8 e h in
    let tail : Ipv4Addr = record { octets = drop 12 a.octets } in
    let four : IsIpv4 tail =
      (omega (arith, length-drop 12 a.octets), All-drop IsByte 12 a.octets h) in
    elim (Bool-cases (is_mapped gs)) [
      | inl m ↦
          let (x, y, last, whole) = mapped_groups gs len m in
          rw m (
            subst (λ q. IsRead q (mapped_text (show_ipv4 tail))) (sym whole)
              (mapped-IsRead tail x y four (last_groups a.octets e ∙ last)))
      | inr m ↦ rw m (show_groups-IsRead gs len all)
    ]

ip6_of :
    (text : List ℕ) (a : Ipv6Addr)
    → read_ipv4 text ≡ none
    → read_ipv6 text ≡ some (a, [])
    → parse_ip text ≡ some (v6 a)
unfolding parse_ip
ip6_of text a e f =
    ap
      (λ (o : Option (Ipv4Addr × List ℕ)).
        and_then
          (elim o as (λ k. Option (IpAddr × List ℕ)) [
            | some (b, rest) ↦ some (v4 b, rest)
            | none ↦ and_then (read_ipv6 text) λ (b, rest). some (v6 b, rest)
          ])
          all_read)
      e
    ∙ ap
        (λ (o : Option (Ipv6Addr × List ℕ)).
          and_then (and_then o λ (b, rest). some (v6 b, rest)) all_read)
        f

-- `IpAddr::from_str` on the text of an IP address gives the address.
pub parse_ip-show_ip : (ip : IpAddr) → IsIp ip → parse_ip (show_ip ip) ≡ some ip
unfolding show_ip
parse_ip-show_ip (v4 a) h = parse_ip-show_ipv4 a h
parse_ip-show_ip (v6 a) h =
    let (not_ipv4, ipv6) = show_ipv6-IsRead a h in
    let same : octets_of_groups (segments a.octets) ≡ a.octets =
      octets-segments a.octets 8 h.0 h.1 in
    ip6_of (show_ipv6 a) a not_ipv4 (ipv6 ∙ ap six same)
  where
    six : List ℕ → Option (Ipv6Addr × List ℕ)
    six os = some (record { octets = os }, [])
