-- ===== src/Policy.antt =====
-- The connection policies of policy.rs.
use proxy_protocol_rs.Prelude.{
  ℕ, ◌≡◌, Bool, true, false, ◌||◌, ◌==◌, if◌then◌else◌, List, [], ◌∷◌, ◌++◌, bytes_eq, Outcome, ok,
}
use proxy_protocol_rs.Std.Net.{IpAddr, v4, v6, SocketAddr, ip_of}
pub mod Networks

pub data PolicyDecision : Type 0 where
  require use_header ignore reject : PolicyDecision

-- `dyn ConnPolicy`; a closure is one, by the blanket implementation. It is code of the caller and may
-- panic.
abbrev pub ConnPolicy : Type 0
ConnPolicy = SocketAddr → Outcome PolicyDecision ⊥

-- `==` on IP addresses
abbrev pub ip_eq : IpAddr → IpAddr → Bool
ip_eq (v4 a) (v4 b) = bytes_eq a.octets b.octets
ip_eq (v6 a) (v6 b) = bytes_eq a.octets b.octets
ip_eq _ _ = false

-- `iter().any(p)`
abbrev pub any {ℓ} : {A : Type ℓ} → (A → Bool) → List A → Bool
any p [] = false
any p (x ∷ xs) = if p x then true else any p xs

-- The crate `ipnet`, which policy.rs calls and which is no part of the repository. The law is its
-- documentation: a network whose prefix has the full length contains its own address and no other.
pub record IpNets : Type 1 where
  pub IpNet : Type 0
  pub prefix_len : IpNet → ℕ
  pub max_prefix_len : IpNet → ℕ
  pub addr : IpNet → IpAddr
  pub net_contains : IpNet → IpAddr → Bool
  pub host_law :
      (n : IpNet) (ip : IpAddr)
      → prefix_len n ≡ max_prefix_len n
      → net_contains n ip ≡ ip_eq ip (addr n)

abbrev pub accept_all : ConnPolicy
accept_all peer_addr = ok require

-- `OptionalProxy`
abbrev pub optional_proxy : ConnPolicy
optional_proxy peer_addr = ok use_header

module _ (nets : IpNets) where
  -- The set of exact addresses is a list: its order and repetitions are not looked at.
  pub record TrustedProxies : Type 0 where
    pub exact : List IpAddr
    pub cidrs : List nets.IpNet

  unfoldable pub trusted_new : List IpAddr → TrustedProxies
  trusted_new addrs = record { exact = addrs; cidrs = [] }

  unfoldable pub with_cidrs : List IpAddr → List nets.IpNet → TrustedProxies
  with_cidrs addrs cidrs = record { exact = addrs; cidrs = cidrs }

  -- The loop of `from_ipnets`
  unfoldable pub split_nets : List nets.IpNet → List IpAddr → List nets.IpNet → TrustedProxies
  split_nets [] exact cidrs = record { exact = exact; cidrs = cidrs }
  split_nets (net ∷ rest) exact cidrs =
      if nets.prefix_len net == nets.max_prefix_len net
      then split_nets rest (nets.addr net ∷ exact) cidrs
      else split_nets rest exact (cidrs ++ (net ∷ []))

  unfoldable pub from_ipnets : List nets.IpNet → TrustedProxies
  from_ipnets ns = split_nets ns [] []

  unfoldable pub contains : TrustedProxies → IpAddr → Bool
  contains t ip = any (ip_eq ip) t.exact || any (λ net. nets.net_contains net ip) t.cidrs

  unfoldable pub trusted_proxies : TrustedProxies → ConnPolicy
  unfolding contains
  trusted_proxies t peer_addr = ok (if contains t (ip_of peer_addr) then require else reject)

  unfoldable pub mixed_mode : TrustedProxies → ConnPolicy
  unfolding contains
  mixed_mode t peer_addr = ok (if contains t (ip_of peer_addr) then require else ignore)
