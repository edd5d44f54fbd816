-- ===== src/Policy/Networks.antt =====
-- `TrustedProxies::from_ipnets` of policy.rs.
use proxy_protocol_rs.Prelude.{
  ◌≡◌, refl, sym, ap, ◌∙◌, inl, inr, Bool, true, false, ◌||◌, ◌==◌, ==_iff, Bool-cases,
  if◌then◌else◌, List, [], ◌∷◌, ◌++◌, arith,
}
use proxy_protocol_rs.Std.Net.{IpAddr}
use proxy_protocol_rs.Policy.{ip_eq, any, IpNets, split_nets, from_ipnets, contains}

any-append : {A : Type 0} (p : A → Bool) (xs ys : List A) → any p (xs ++ ys) ≡ any p xs || any p ys
any-append p [] ys = refl
any-append p (x ∷ xs) ys = ground (arith, any-append p xs ys)

into_exact :
    (e a c n : Bool) → ((if e then true else a) || c) || n ≡ (a || c) || (if e then true else n)
into_exact true true c n = refl
into_exact true false true n = refl
into_exact true false false n = refl
into_exact false a c n = refl

into_cidrs :
    (e a c n : Bool)
    → (a || (c || (if e then true else false))) || n ≡ (a || c) || (if e then true else n)
into_cidrs e true c n = refl
into_cidrs e false true n = refl
into_cidrs true false false n = refl
into_cidrs false false false n = refl

or_false : (a : Bool) → a || false ≡ a
or_false true = refl
or_false false = refl

module _ (nets : IpNets) where
  split_nets-contains :
      (ns : List nets.IpNet) (exact : List IpAddr) (cidrs : List nets.IpNet) (ip : IpAddr)
      → contains nets (split_nets nets ns exact cidrs) ip
        ≡ (any (ip_eq ip) exact || any (λ n. nets.net_contains n ip) cidrs)
          || any (λ n. nets.net_contains n ip) ns
  unfolding contains split_nets
  split_nets-contains [] exact cidrs ip = sym (or_false _)
  split_nets-contains (n ∷ ns) exact cidrs ip =
      let inside = λ (m : nets.IpNet). nets.net_contains m ip in
      elim (Bool-cases (nets.prefix_len n == nets.max_prefix_len n)) [
        | inl host ↦
            rw (host, nets.host_law n ip ((==_iff _ _).0 host))
              (split_nets-contains ns (nets.addr n ∷ exact) cidrs ip
                ∙ into_exact (ip_eq ip (nets.addr n)) (any (ip_eq ip) exact) (any inside cidrs)
                    (any inside ns))
        | inr range ↦ rw range (
            split_nets-contains ns exact (cidrs ++ (n ∷ [])) ip
            ∙ (ap (λ b. (any (ip_eq ip) exact || b) || any inside ns)
                  (any-append inside cidrs (n ∷ []))
                ∙ into_cidrs (inside n) (any (ip_eq ip) exact) (any inside cidrs) (any inside ns)))
      ]

  -- The split of `from_ipnets` into exact addresses and networks changes nothing: an address is
  -- contained exactly if one of the networks given contains it.
  pub from_ipnets-contains :
      (ns : List nets.IpNet) (ip : IpAddr)
      → contains nets (from_ipnets nets ns) ip ≡ any (λ n. nets.net_contains n ip) ns
  unfolding from_ipnets
  from_ipnets-contains ns ip = split_nets-contains ns [] [] ip
