-- ===== src/Tests/Trusting.antt =====
-- Policies over networks of the crate `ipnet`, alone and in `accept` of listener.rs.
use proxy_protocol_rs.Prelude.{
  ℕ, ◌≡◌, refl, ◌⊎◌, inr, true, false, Bool, [], ◌∷◌, Option, none, some, ok, arith,
}
use proxy_protocol_rs.Std.Net.{IpAddr, v4}
use proxy_protocol_rs.Policy.{IpNets, ip_eq, any, from_ipnets, split_nets, contains, mixed_mode}
use proxy_protocol_rs.Policy.Networks.{from_ipnets-contains}
use proxy_protocol_rs.Config.{ProxyProtocolConfig, config_default}
use proxy_protocol_rs.Stream.{ProxiedStream, new_stream}
use proxy_protocol_rs.Listener.{connected, accept, on_policy, on_decision}
use proxy_protocol_rs.Listener.Trust.{IsProxied, IsDirect, accept-trusted}
use proxy_protocol_rs.Tests.{sum_crc, client, server}
use proxy_protocol_rs.Tests.Listening.{clock, peer, closed_error, cut}

-- Networks of one address, and the network of all addresses
abbrev net_contains_one : Option IpAddr → IpAddr → Bool
net_contains_one none ip = true
net_contains_one (some a) ip = ip_eq ip a

abbrev net_len : Option IpAddr → ℕ
net_len none = 0
net_len (some a) = 32

abbrev net_addr : Option IpAddr → IpAddr
net_addr none = v4 server
net_addr (some a) = a

host_contains :
    (n : Option IpAddr) (ip : IpAddr)
    → net_len n ≡ 32
    → net_contains_one n ip ≡ ip_eq ip (net_addr n)
host_contains none ip h = absurd (omega arith)
host_contains (some a) ip h = refl

abbrev nets : IpNets
nets = record {
  IpNet = Option IpAddr;
  prefix_len = net_len;
  max_prefix_len = λ n. 32;
  addr = net_addr;
  net_contains = net_contains_one;
  host_law = host_contains;
}

from_ipnets-contains_example :
    contains nets (from_ipnets nets (some (v4 client) ∷ none ∷ [])) (v4 server)
    ≡ any (λ n. net_contains_one n (v4 server)) (some (v4 client) ∷ none ∷ [])
from_ipnets-contains_example = from_ipnets-contains nets (some (v4 client) ∷ none ∷ []) (v4 server)

-- The peer is no trusted one, and sends a header.
abbrev mixed : ProxyProtocolConfig
mixed = record config_default {
  policy = mixed_mode nets (from_ipnets nets (some (v4 client) ∷ []));
}

abbrev passed : ProxiedStream
passed = new_stream cut [] none peer

accept-passed : accept sum_crc mixed closed_error clock (connected cut peer) ≡ ok passed
unfolding accept on_policy on_decision mixed_mode contains from_ipnets split_nets
accept-passed = refl

accept-trusted_example :
    ((any (λ n. net_contains_one n (v4 server)) (some (v4 client) ∷ []) ≡ true)
      × IsProxied sum_crc cut passed)
    ⊎ ((any (λ n. net_contains_one n (v4 server)) (some (v4 client) ∷ []) ≡ false)
        × IsDirect cut passed)
accept-trusted_example =
    accept-trusted nets sum_crc mixed closed_error clock cut peer (some (v4 client) ∷ []) passed
      (inr refl) accept-passed
