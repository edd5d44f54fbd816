-- ===== src/Std/Ipv4Text.antt =====
-- IPv4 addresses: `Display` against `IpAddr::from_str`.
use proxy_protocol_rs.Prelude.{
  ℕ, suc, ◌<◌, ◌≡◌, refl, sym, ap, ◌∙◌, subst, List, [], ◌∷◌, ◌++◌, append-nil, length, All, IsByte,
  Option, none, some, and_then, arith,
}
use proxy_protocol_rs.Std.Net.{Ipv4Addr, v4, IpAddr, v6, IsIpv4}
use proxy_protocol_rs.Std.IpText.{to_digit, read_octets, read_ipv4, read_ipv6, all_read, parse_ip}
use proxy_protocol_rs.Std.IpDisplay.{show_loop, show_dec, show_ipv4}
use proxy_protocol_rs.Std.Digits.{Stops}
use proxy_protocol_rs.Std.Decimal.{read_number-show_loop}

abbrev pub dec : ℕ → List ℕ
dec n = show_loop 10 (suc n) n

dot-Stops : (r : List ℕ) → Stops 10 (46 ∷ r)
unfolding to_digit
dot-Stops r = refl

octets_read :
    (a b c d : ℕ)
    → a < 256
    → b < 256
    → c < 256
    → d < 256
    → read_octets 4 0 (dec a ++ (46 ∷ (dec b ++ (46 ∷ (dec c ++ (46 ∷ (dec d ++ [])))))))
      ≡ some (a ∷ b ∷ c ∷ d ∷ [], [])
unfolding read_octets
octets_read a b c d p q r s =
    let t3 = dec d ++ [] in
    let t2 = dec c ++ (46 ∷ t3) in
    let t1 = dec b ++ (46 ∷ t2) in
    rw (
      read_number-show_loop a (46 ∷ t1) p (dot-Stops t1),
      read_number-show_loop b (46 ∷ t2) q (dot-Stops t2),
      read_number-show_loop c (46 ∷ t3) r (dot-Stops t3),
      read_number-show_loop d [] s tt,
    )

pub show_four :
    (a b c d : ℕ)
    → show_ipv4 (record { octets = a ∷ b ∷ c ∷ d ∷ [] })
      ≡ dec a ++ (46 ∷ (dec b ++ (46 ∷ (dec c ++ (46 ∷ (dec d ++ []))))))
unfolding show_ipv4 show_dec
show_four a b c d = rw (append-nil (dec d))

ipv4_of :
    (text os : List ℕ)
    → read_octets 4 0 text ≡ some (os, [])
    → read_ipv4 text ≡ some (record { octets = os }, [])
unfolding read_ipv4
ipv4_of text os e = rw e

ip_of_octets :
    (text os : List ℕ)
    → read_octets 4 0 text ≡ some (os, [])
    → parse_ip text ≡ some (v4 (record { octets = os }))
unfolding parse_ip
ip_of_octets text os e =
    subst
      (λ (o : Option (Ipv4Addr × List ℕ)).
        ◌≡◌ {A = Option IpAddr}
          (and_then
            (elim o as (λ k. Option (IpAddr × List ℕ)) [
              | some (a, rest) ↦ some (v4 a, rest)
              | none ↦ and_then (read_ipv6 text) λ (a, rest). some (v6 a, rest)
            ])
            all_read)
          (some (v4 (record { octets = os }))))
      (sym (ipv4_of text os e)) refl

octets_shown :
    (os : List ℕ)
    → length os ≡ 4
    → All IsByte os
    → read_octets 4 0 (show_ipv4 (record { octets = os })) ≡ some (os, [])
octets_shown (a ∷ b ∷ c ∷ d ∷ []) e (p, (q, (r, (s, w)))) =
    ap (read_octets 4 0) (show_four a b c d) ∙ octets_read a b c d p q r s
octets_shown _ e h = absurd (omega arith)

-- The text of an IPv4 address is read back.
pub read_ipv4-show_ipv4 : (a : Ipv4Addr) → IsIpv4 a → read_ipv4 (show_ipv4 a) ≡ some (a, [])
read_ipv4-show_ipv4 a h = ipv4_of (show_ipv4 a) a.octets (octets_shown a.octets h.0 h.1)

-- `IpAddr::from_str` on the text of an IPv4 address
pub parse_ip-show_ipv4 : (a : Ipv4Addr) → IsIpv4 a → parse_ip (show_ipv4 a) ≡ some (v4 a)
parse_ip-show_ipv4 a h = ip_of_octets (show_ipv4 a) a.octets (octets_shown a.octets h.0 h.1)
