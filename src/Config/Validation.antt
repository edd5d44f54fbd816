-- ===== src/Config/Validation.antt =====
-- What `ConfigBuilder::build` of config.rs checks.
use proxy_protocol_rs.Prelude.{
  ℕ, zero, suc, ◌<◌, ◌≡◌, sym, ap, subst, ◌∙◌, ◌↔◌, false, ok, fail_if, >>-eq-ok, ok-injective,
  ◌==◌, arith,
}
use proxy_protocol_rs.Config.{
  ProxyProtocolConfig, ConfigBuilder, ConfigError, zero_header_timeout, zero_max_header_size,
  zero_max_pending_handshakes, build_config,
}

-- The settings that a configuration may have
abbrev pub IsConfig : ProxyProtocolConfig → Type 0
IsConfig c = (0 < c.header_timeout) × (0 < c.max_header_size) × (0 < c.max_pending_handshakes)

-- The configuration with the builder's settings
abbrev pub config_of : ConfigBuilder → ProxyProtocolConfig
config_of b = record {
  header_timeout = b.header_timeout;
  max_header_size = b.max_header_size;
  max_pending_handshakes = b.max_pending_handshakes;
  policy = b.policy;
  validator = b.validator;
  version = b.version;
}

passed : (n : ℕ) (e : ConfigError) → fail_if (n == 0) e ≡ ok tt → 0 < n
passed zero e h = cc
passed (suc n) e h = omega arith

positive : (n : ℕ) → 0 < n → (n == 0) ≡ false
positive zero h = absurd (omega arith)
positive (suc n) h = ground arith

built-IsConfig :
    (b : ConfigBuilder) {c : ProxyProtocolConfig}
    → build_config b ≡ ok c
    → (c ≡ config_of b) × IsConfig c
unfolding build_config
built-IsConfig b {c} h =
    let (timeout, h1) = >>-eq-ok (fail_if (b.header_timeout == 0) zero_header_timeout) _ h in
    let (size, h2) = >>-eq-ok (fail_if (b.max_header_size == 0) zero_max_header_size) _ h1 in
    let (limit, h3) =
      >>-eq-ok (fail_if (b.max_pending_handshakes == 0) zero_max_pending_handshakes) _ h2 in
    let same : config_of b ≡ c = ok-injective h3 in
    (sym same, subst IsConfig same (passed _ _ timeout, passed _ _ size, passed _ _ limit))

config-built : (b : ConfigBuilder) → IsConfig (config_of b) → build_config b ≡ ok (config_of b)
unfolding build_config
config-built b h = rw (
  positive b.header_timeout h.0,
  positive b.max_header_size h.1,
  positive b.max_pending_handshakes h.2,
)

-- `build` succeeds exactly if the timeout, the header size and the number of handshakes are all
-- positive, and what it then gives has the builder's settings.
pub build_config-IsConfig :
    (b : ConfigBuilder) (c : ProxyProtocolConfig)
    → (build_config b ≡ ok c) ↔ ((c ≡ config_of b) × IsConfig c)
unfolding build_config
build_config-IsConfig b c =
    (λ h. built-IsConfig b h, λ p. config-built b (subst IsConfig p.0 p.1) ∙ ap ok (sym p.0))
