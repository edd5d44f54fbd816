-- ===== src/Parse/V2/Reads.antt =====
-- Reads out of the buffer in parse/v2.rs: out of range they panic, and none gives an error.
use proxy_protocol_rs.Prelude.{
  ℕ, zero, suc, inl, inr, Bool-cases, ◌==◌, List, [], ◌∷◌, length, slice, slice_from, index,
  Outcome, ◌>>=◌, OnErr, OnErr-ok, OnErr-panic, OnErr->>=, leb, ◌&&◌,
}
use proxy_protocol_rs.Error.{ParseError}
use proxy_protocol_rs.Parse.V2.{ipv6_of}

module _ {P : ParseError → Type 0} where
  pub index-OnErr : (xs : List ℕ) (i : ℕ) → OnErr P (index xs i)
  index-OnErr [] i = OnErr-panic
  index-OnErr (x ∷ xs) zero = OnErr-ok x
  index-OnErr (x ∷ xs) (suc i) = index-OnErr xs i

  pub slice-OnErr : (xs : List ℕ) (i j : ℕ) → OnErr P (slice xs i j)
  slice-OnErr xs i j = elim (Bool-cases (leb i j && leb j (length xs))) [
    | inl e ↦ rw e (OnErr-ok _)
    | inr e ↦ rw e OnErr-panic
  ]

  pub slice_from-OnErr : (xs : List ℕ) (i : ℕ) → OnErr P (slice_from xs i)
  slice_from-OnErr xs i = elim (Bool-cases (leb i (length xs))) [
    | inl e ↦ rw e (OnErr-ok _)
    | inr e ↦ rw e OnErr-panic
  ]

  pub ipv6_of-OnErr : (xs : List ℕ) → OnErr P (ipv6_of xs)
  ipv6_of-OnErr xs = elim (Bool-cases (length xs == 16)) [
    | inl e ↦ rw e (OnErr-ok _)
    | inr e ↦ rw e OnErr-panic
  ]

  pub at_byte :
      {B : Type 0} (xs : List ℕ) (i : ℕ) (f : ℕ → Outcome B ParseError)
      → ((b : ℕ) → OnErr P (f b))
      → OnErr P (index xs i >>= f)
  at_byte xs i f h = OnErr->>= (index xs i) f (index-OnErr xs i) λ b e. h b

  pub at_slice :
      {B : Type 0} (xs : List ℕ) (i j : ℕ) (f : List ℕ → Outcome B ParseError)
      → ((ys : List ℕ) → OnErr P (f ys))
      → OnErr P (slice xs i j >>= f)
  at_slice xs i j f h = OnErr->>= (slice xs i j) f (slice-OnErr xs i j) λ b e. h b
