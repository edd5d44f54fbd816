-- ===== src/Std/Io.antt =====
-- `std::io::Error`, as far as the library looks into one.
use proxy_protocol_rs.Prelude.{ℕ, List}

-- `io::ErrorKind`: the kinds that axum.rs names, and the rest by a number.
pub data ErrorKind : Type 0 where
  connection_reset connection_aborted connection_refused : ErrorKind
  other_kind : ℕ → ErrorKind

pub record IoError : Type 0 where
  pub kind : ErrorKind
  pub message : List ℕ
