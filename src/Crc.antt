-- ===== src/Crc.antt =====
-- The crate `crc32c`, which parse/v2.rs and builder.rs call. It is no part of the repository, so
-- the model takes it as a value of this record.
use proxy_protocol_rs.Prelude.{ℕ, ◌≡◌, ◌<◌, ◌^◌, List, ◌++◌}

-- `crc32c(data)` and `crc32c_append(crc, data)`. The laws are the crate's documentation: a
-- checksum is a `u32`, and appending to the checksum of a prefix gives that of the whole.
pub record Crc32c : Type 0 where
  pub crc32c : List ℕ → ℕ
  pub crc32c_append : ℕ → List ℕ → ℕ
  pub crc32c-lt : (xs : List ℕ) → crc32c xs < 2 ^ 32
  pub append_law : (xs ys : List ℕ) → crc32c_append (crc32c xs) ys ≡ crc32c (xs ++ ys)
