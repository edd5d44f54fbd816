-- ===== src/Listener/Trust.antt =====
-- The policies of policy.rs that trust given networks, in `accept` of listener.rs.
use proxy_protocol_rs.Prelude.{
  ℕ, ◌≡◌, refl, sym, ap, ◌∙◌, ◌⊎◌, inl, inr, Bool, true, false, if◌then◌else◌, none, some, List, ok,
  arith,
}
use proxy_protocol_rs.Std.Io.{IoError}
use proxy_protocol_rs.Std.Net.{SocketAddr, ip_of}
use proxy_protocol_rs.Types.{ProxyInfo}
use proxy_protocol_rs.Crc.{Crc32c}
use proxy_protocol_rs.Parse.Header.{parse}
use proxy_protocol_rs.Policy.{
  PolicyDecision, require, ignore, reject, any, IpNets, from_ipnets, trusted_proxies, mixed_mode,
}
use proxy_protocol_rs.Policy.Networks.{from_ipnets-contains}
use proxy_protocol_rs.Config.{ProxyProtocolConfig}
use proxy_protocol_rs.Incoming.{TcpStream, bytes_of}
use proxy_protocol_rs.Stream.{ProxiedStream}
use proxy_protocol_rs.Stream.Reading.{unread}
use proxy_protocol_rs.Listener.{Permit, connected, accept}
use proxy_protocol_rs.Listener.Delivery.{Accepted, passed_through, direct, proxied, accept-Accepted}

-- The stream has the header that the connection begins with.
abbrev pub IsProxied : Crc32c → TcpStream → ProxiedStream → Type 0
IsProxied c tcp s =
    (info : ProxyInfo) × (n : ℕ) × (parse c (bytes_of tcp) ≡ ok (info, n))
    × (s.proxy_info ≡ some info)

-- The stream has no header and delivers all bytes.
abbrev pub IsDirect : TcpStream → ProxiedStream → Type 0
IsDirect tcp s = (s.proxy_info ≡ none) × (unread s ≡ bytes_of tcp)

module _ (c : Crc32c) (config : ProxyProtocolConfig) (peer : SocketAddr) (tcp : TcpStream)
    (s : ProxiedStream) where
  -- A policy that requires the header of trusted peers, and neither requires nor uses it of others
  judged :
      (trusted : Bool) (other : PolicyDecision)
      → config.policy peer ≡ ok (if trusted then require else other)
      → (other ≡ reject) ⊎ (other ≡ ignore)
      → Accepted c config peer (bytes_of tcp) s
      → ((trusted ≡ true) × IsProxied c tcp s) ⊎ ((trusted ≡ false) × IsDirect tcp s)
  judged true other p o (passed_through q i u) = absurd (ground (arith, sym p ∙ q))
  judged true other p o (direct q e i u) = absurd (ground (arith, sym p ∙ q))
  judged true other p o (proxied info n q r e wanted valid i u) = inl (refl, (info, n, e, i))
  judged false other p o (passed_through q i u) = inr (refl, (i, u))
  judged false other p o (direct q e i u) = inr (refl, (i, u))
  judged false other p o (proxied info n q r e wanted valid i u) = elim o [
    | inl rejected ↦ absurd (r (p ∙ ap ok rejected))
    | inr ignored ↦ absurd (q (p ∙ ap ok ignored))
  ]

module _ (nets : IpNets) where
  decided :
      (config : ProxyProtocolConfig) (ns : List nets.IpNet) (peer : SocketAddr)
      → (config.policy ≡ trusted_proxies nets (from_ipnets nets ns))
        ⊎ (config.policy ≡ mixed_mode nets (from_ipnets nets ns))
      → (other : PolicyDecision) × (config.policy peer
          ≡ ok (if any (λ n. nets.net_contains n (ip_of peer)) ns then require else other))
        × ((other ≡ reject) ⊎ (other ≡ ignore))
  unfolding trusted_proxies mixed_mode
  decided config ns peer h =
      let inside = from_ipnets-contains nets ns (ip_of peer) in
      elim h [
        | inl e ↦ (
          reject,
          ap (λ f. f peer) e ∙ ap (λ b. ok (if b then require else reject)) inside,
          inl refl,
        )
        | inr e ↦ (
          ignore,
          ap (λ f. f peer) e ∙ ap (λ b. ok (if b then require else ignore)) inside,
          inr refl,
        )
      ]

  -- With the policy `TrustedProxies` or `MixedMode` over a list of networks, whatever the connection
  -- does, `accept` gives a stream of a peer in one of the networks only with the header that the
  -- connection begins with, and a stream of any other peer only without a header and with all bytes:
  -- what a peer outside the networks sends is never taken for a header.
  pub accept-trusted :
      (c : Crc32c) (config : ProxyProtocolConfig) (other : IoError) (permit : Permit)
      (tcp : TcpStream) (peer : SocketAddr) (ns : List nets.IpNet) (s : ProxiedStream)
      → (config.policy ≡ trusted_proxies nets (from_ipnets nets ns))
        ⊎ (config.policy ≡ mixed_mode nets (from_ipnets nets ns))
      → accept c config other permit (connected tcp peer) ≡ ok s
      → ((any (λ n. nets.net_contains n (ip_of peer)) ns ≡ true) × IsProxied c tcp s)
        ⊎ ((any (λ n. nets.net_contains n (ip_of peer)) ns ≡ false) × IsDirect tcp s)
  accept-trusted c config other permit tcp peer ns s h e =
      let (otherwise, p, o) = decided config ns peer h in
      judged c config peer tcp s (any (λ n. nets.net_contains n (ip_of peer)) ns) otherwise p o
        (accept-Accepted c config other permit tcp peer s e).0
