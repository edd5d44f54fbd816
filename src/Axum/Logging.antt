-- ===== src/Axum/Logging.antt =====
-- What `handle_accept_error` of axum.rs logs.
use proxy_protocol_rs.Prelude.{
  ℕ, ◌≡◌, ◌↔◌, ◌⊎◌, sym, subst, true, false, refl, inl, inr, if◌then◌else◌, Option, none, some,
  List, map_option, arith,
}
use proxy_protocol_rs.Std.Io.{
  ErrorKind, connection_reset, connection_aborted, connection_refused, other_kind, IoError,
}
use proxy_protocol_rs.Std.Net.{SocketAddr}
use proxy_protocol_rs.Std.Text.{text}
use proxy_protocol_rs.Error.{
  AcceptError, io, rejected, header_timeout, empty_connection, version_mismatch, parse_failed,
  validation_failed,
}
use proxy_protocol_rs.Error.Display.{show_parse_error}
use proxy_protocol_rs.Axum.{is_connection_kind, is_connection_error, handle_accept_error}

-- The macros of the crate tracing
pub data Level : Type 0 where
  debug warn error : Level

-- An event with its fields `peer` and `error`, where it has them, and its message
pub record Event : Type 0 where
  pub level : Level
  pub peer : Option SocketAddr
  pub reason : Option (List ℕ)
  pub message : List ℕ

abbrev of_peer : Level → SocketAddr → Option (List ℕ) → List ℕ → Option Event
of_peer level addr reason message =
    some (record { level = level; peer = some addr; reason = reason; message = message })

-- The event for an error, where there is one
unfoldable pub logged : AcceptError → Option Event
unfolding show_parse_error is_connection_error
logged (rejected addr) = of_peer debug addr none (text "connection rejected by policy")
logged (empty_connection addr) =
    of_peer debug addr none (text "empty connection (peer disconnected immediately)")
logged (header_timeout addr) = of_peer warn addr none (text "Proxy Protocol header timeout")
logged (parse_failed e addr) =
    of_peer warn addr (some (show_parse_error e)) (text "Proxy Protocol parse error")
logged (validation_failed reason addr) =
    of_peer warn addr (some reason) (text "Proxy Protocol header validation failed")
logged (version_mismatch addr) = of_peer warn addr none (text "unwanted Proxy Protocol version")
logged (io e) =
    if is_connection_error e
    then none
    else some (record {
      level = error;
      peer = none;
      reason = some e.message;
      message = text "accept I/O error, retrying in 1s";
    })

abbrev pub level_of : Option Event → Option Level
level_of o = map_option (λ e. e.level) o

-- The kinds of an I/O error of one connection: it was reset, aborted or refused.
abbrev pub IsOfConnection : IoError → Type 0
IsOfConnection x =
    (x.kind ≡ connection_reset) ⊎ ((x.kind ≡ connection_aborted) ⊎ (x.kind ≡ connection_refused))

kind-cases :
    (x : IoError)
    → ((is_connection_error x ≡ true) × IsOfConnection x)
      ⊎ ((is_connection_error x ≡ false) × (IsOfConnection x → ⊥))
unfolding is_connection_error
kind-cases x = of_kind x.kind
  where
    of_kind :
        (k : ErrorKind)
        → ((is_connection_kind k ≡ true)
            × ((k ≡ connection_reset) ⊎ ((k ≡ connection_aborted) ⊎ (k ≡ connection_refused))))
          ⊎ ((is_connection_kind k ≡ false)
              × ((k ≡ connection_reset) ⊎ ((k ≡ connection_aborted) ⊎ (k ≡ connection_refused))
                  → ⊥))
    of_kind connection_reset = inl (refl, inl refl)
    of_kind connection_aborted = inl (refl, inr (inl refl))
    of_kind connection_refused = inl (refl, inr (inr refl))
    of_kind (other_kind n) =
        inr (refl, λ h. elim h [ inl e ↦ cc | inr r ↦ elim r [ inl e ↦ cc | inr e ↦ cc ] ])

-- The error is an I/O error with a property.
abbrev pub IoOf : (IoError → Type 0) → AcceptError → Type 0
IoOf P e = (x : IoError) × (e ≡ io x) × P x

same_io : (x y : IoError) → io x ≡ io y → x ≡ y
same_io x y e = cc

abbrev Logs : AcceptError → Type 0
Logs e =
    ((handle_accept_error e ≡ 1) ↔ IoOf (λ x. IsOfConnection x → ⊥) e)
    × ((level_of (logged e) ≡ some error) ↔ IoOf (λ x. IsOfConnection x → ⊥) e)
    × ((logged e ≡ none) ↔ IoOf IsOfConnection e)
    × ((handle_accept_error e ≡ 0) ⊎ (handle_accept_error e ≡ 1))

io-Logs : (x : IoError) → Logs (io x)
unfolding handle_accept_error logged
io-Logs x = elim (kind-cases x) [
  | inl (e, k) ↦
      let not_other : IoOf (λ y. IsOfConnection y → ⊥) (io x) → ⊥ =
        λ (y, q, n). n (subst IsOfConnection (same_io x y q) k) in
      rw e (
        (λ h. absurd (omega arith), λ h. absurd (not_other h)),
        (λ h. cc, λ h. absurd (not_other h)),
        (λ h. (x, refl, k), λ h. refl),
        inl refl,
      )
  | inr (e, n) ↦ rw e (
    (λ h. (x, refl, n), λ h. refl),
    (λ h. (x, refl, n), λ h. refl),
    (λ h. cc, λ (y, q, k). absurd (n (subst IsOfConnection (sym (same_io x y q)) k))),
    inr refl,
  )
]

-- The loop sleeps after an error, for one second, exactly when it logs an event of level `error`, and
-- exactly when the error is an I/O error that is none of a connection reset, aborted or refused.
-- After every other error it does not sleep. It logs nothing exactly when the error is an I/O error
-- of a connection reset, aborted or refused.
pub logged-sleep :
    (e : AcceptError)
    → ((handle_accept_error e ≡ 1) ↔ IoOf (λ x. IsOfConnection x → ⊥) e)
      × ((level_of (logged e) ≡ some error) ↔ IoOf (λ x. IsOfConnection x → ⊥) e)
      × ((logged e ≡ none) ↔ IoOf IsOfConnection e)
      × ((handle_accept_error e ≡ 0) ⊎ (handle_accept_error e ≡ 1))
unfolding handle_accept_error logged
logged-sleep (io x) = io-Logs x
logged-sleep (rejected addr) = (
  (λ h. absurd (omega arith), λ (x, q, n). cc),
  (λ h. cc, λ (x, q, n). cc),
  (λ h. cc, λ (x, q, k). cc),
  inl refl,
)
logged-sleep (empty_connection addr) = (
  (λ h. absurd (omega arith), λ (x, q, n). cc),
  (λ h. cc, λ (x, q, n). cc),
  (λ h. cc, λ (x, q, k). cc),
  inl refl,
)
logged-sleep (header_timeout addr) = (
  (λ h. absurd (omega arith), λ (x, q, n). cc),
  (λ h. cc, λ (x, q, n). cc),
  (λ h. cc, λ (x, q, k). cc),
  inl refl,
)
logged-sleep (parse_failed r addr) = (
  (λ h. absurd (omega arith), λ (x, q, n). cc),
  (λ h. cc, λ (x, q, n). cc),
  (λ h. cc, λ (x, q, k). cc),
  inl refl,
)
logged-sleep (validation_failed r addr) = (
  (λ h. absurd (omega arith), λ (x, q, n). cc),
  (λ h. cc, λ (x, q, n). cc),
  (λ h. cc, λ (x, q, k). cc),
  inl refl,
)
logged-sleep (version_mismatch addr) = (
  (λ h. absurd (omega arith), λ (x, q, n). cc),
  (λ h. cc, λ (x, q, n). cc),
  (λ h. cc, λ (x, q, k). cc),
  inl refl,
)
