-- ===== src/Config.antt =====
-- The listener's configuration, config.rs, and the validator trait of validator.rs.
use proxy_protocol_rs.Prelude.{
  ℕ, ◌*◌, ◌≡◌, Option, none, some, Outcome, ok, err, ◌>>◌, fail_if, ◌==◌, List,
}
use proxy_protocol_rs.Std.Net.{SocketAddr}
use proxy_protocol_rs.Std.Text.{text}
use proxy_protocol_rs.Types.{ProxyInfo}
use proxy_protocol_rs.Policy.{ConnPolicy, accept_all}
pub mod Validation

-- `dyn HeaderValidator`; a closure is one, by the blanket implementation. It is code of the caller
-- and may panic.
abbrev pub HeaderValidator : Type 0
HeaderValidator = ProxyInfo → SocketAddr → Outcome (Unit {0}) (List ℕ)

pub data VersionPreference : Type 0 where
  both v1_only v2_only : VersionPreference

-- A `Duration` is its length in nanoseconds.
pub record ProxyProtocolConfig : Type 0 where
  pub header_timeout : ℕ
  pub max_header_size : ℕ
  pub max_pending_handshakes : ℕ
  pub policy : ConnPolicy
  pub validator : Option HeaderValidator
  pub version : VersionPreference

-- `Duration::from_secs`
abbrev pub from_secs : ℕ → ℕ
from_secs s = s * 1000000000

abbrev pub config_default : ProxyProtocolConfig
config_default = record {
  header_timeout = from_secs 5;
  max_header_size = 4096;
  max_pending_handshakes = 1024;
  policy = accept_all;
  validator = none;
  version = both;
}

pub record ConfigBuilder : Type 0 where
  pub header_timeout : ℕ
  pub max_header_size : ℕ
  pub max_pending_handshakes : ℕ
  pub policy : ConnPolicy
  pub validator : Option HeaderValidator
  pub version : VersionPreference

abbrev pub builder_default : ConfigBuilder
builder_default = record {
  header_timeout = from_secs 5;
  max_header_size = 4096;
  max_pending_handshakes = 1024;
  policy = accept_all;
  validator = none;
  version = both;
}

abbrev pub set_header_timeout : ℕ → ConfigBuilder → ConfigBuilder
set_header_timeout timeout b = record b { header_timeout = timeout }

abbrev pub set_max_header_size : ℕ → ConfigBuilder → ConfigBuilder
set_max_header_size size b = record b { max_header_size = size }

abbrev pub set_max_pending_handshakes : ℕ → ConfigBuilder → ConfigBuilder
set_max_pending_handshakes limit b = record b { max_pending_handshakes = limit }

abbrev pub set_policy : ConnPolicy → ConfigBuilder → ConfigBuilder
set_policy p b = record b { policy = p }

abbrev pub set_validator : HeaderValidator → ConfigBuilder → ConfigBuilder
set_validator v b = record b { validator = some v }

abbrev pub set_version : VersionPreference → ConfigBuilder → ConfigBuilder
set_version v b = record b { version = v }

-- `ConfigError` carries a fixed text; here it is the setting that the text names.
pub data ConfigError : Type 0 where
  zero_header_timeout zero_max_header_size zero_max_pending_handshakes : ConfigError

-- `ConfigBuilder::build`
unfoldable pub build_config : ConfigBuilder → Outcome ProxyProtocolConfig ConfigError
build_config b = do
  fail_if (b.header_timeout == 0) zero_header_timeout
  fail_if (b.max_header_size == 0) zero_max_header_size
  fail_if (b.max_pending_handshakes == 0) zero_max_pending_handshakes
  ok (record {
    header_timeout = b.header_timeout;
    max_header_size = b.max_header_size;
    max_pending_handshakes = b.max_pending_handshakes;
    policy = b.policy;
    validator = b.validator;
    version = b.version;
  })

-- `Display` for `ConfigError`: the text that `build` puts into it
unfoldable pub show_config_error : ConfigError → List ℕ
show_config_error zero_header_timeout = text "header_timeout must be greater than zero"
show_config_error zero_max_header_size = text "max_header_size must be greater than zero"
show_config_error zero_max_pending_handshakes =
    text "max_pending_handshakes must be greater than zero"

-- `ProxyProtocolConfig::builder`
abbrev pub config_builder : ConfigBuilder
config_builder = builder_default
