-- ===== src/Axum/Skipping.antt =====
-- The accept loop of axum.rs on connections that fail.
use proxy_protocol_rs.Prelude.{
  ℕ, ◌+◌, ◌≤◌, ◌≡◌, Bool-cases, inl, inr, List, [], ◌∷◌, ◌++◌, length, All, ok, err, arith,
}
use proxy_protocol_rs.Std.Io.{IoError}
use proxy_protocol_rs.Error.{
  AcceptError, io, rejected, header_timeout, empty_connection, version_mismatch, parse_failed,
  validation_failed,
}
use proxy_protocol_rs.Crc.{Crc32c}
use proxy_protocol_rs.Config.{ProxyProtocolConfig}
use proxy_protocol_rs.Stream.{ProxiedStream, connect_info}
use proxy_protocol_rs.Listener.{Permit, Connection, accept}
use proxy_protocol_rs.Axum.{is_connection_error, handle_accept_error, served, serve_one, serve}

module _ (c : Crc32c) (config : ProxyProtocolConfig) (other : IoError) where
  -- The connection is not accepted.
  abbrev pub Fails : Permit × Connection → Type 0
  Fails p = (e : AcceptError) × (accept c config other p.0 p.1 ≡ err e)

sleep-lt : (e : AcceptError) → handle_accept_error e ≤ 1
unfolding handle_accept_error
sleep-lt (io e) = elim (Bool-cases (is_connection_error e)) [
  | inl q ↦ rw q (omega arith)
  | inr q ↦ rw q (omega arith)
]
sleep-lt (rejected addr) = omega arith
sleep-lt (empty_connection addr) = omega arith
sleep-lt (header_timeout addr) = omega arith
sleep-lt (parse_failed e addr) = omega arith
sleep-lt (validation_failed reason addr) = omega arith
sleep-lt (version_mismatch addr) = omega arith

-- However many connections fail, and in whatever way, the loop goes on to the first one that is
-- accepted: it gives that stream with its information, leaves the connections behind it untouched,
-- and has slept a second at most for each one that failed.
pub serve-Fails :
    (c : Crc32c) (config : ProxyProtocolConfig) (other : IoError)
    (bad rest : List (Permit × Connection)) (permit : Permit) (conn : Connection)
    (s : ProxiedStream)
    → All (Fails c config other) bad
    → accept c config other permit conn ≡ ok s
    → (slept : ℕ) × (slept ≤ length bad)
      × (serve c config other (bad ++ ((permit, conn) ∷ rest))
          ≡ served s (connect_info s) rest slept)
unfolding serve serve_one
serve-Fails c config other [] rest permit conn s f h = (0, omega arith, rw h)
serve-Fails c config other ((p, k) ∷ bad) rest permit conn s f h =
    let (n, le, run) = serve-Fails c config other bad rest permit conn s f.1 h in
    let (e, failed) = f.0 in
    (handle_accept_error e + n, omega (arith, sleep-lt e), rw (failed, run))
