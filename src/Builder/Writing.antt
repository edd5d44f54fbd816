-- ===== src/Builder/Writing.antt =====
-- `write_to` of builder.rs. The sink is the caller's, and its `write_all` is that of the crate tokio.
use proxy_protocol_rs.Prelude.{
  ℕ, ◌≡◌, refl, sym, ap, ◌∙◌, List, ◌++◌, length, Outcome, ok, err, panic, stuck, ◌>>◌,
  ok-injective, >>-eq-ok,
}
use proxy_protocol_rs.Std.Io.{IoError}
use proxy_protocol_rs.Crc.{Crc32c}
use proxy_protocol_rs.Parse.Tlv.View.{View}
use proxy_protocol_rs.Builder.Calls.{HeaderBuilder}
use proxy_protocol_rs.Builder.Header.{build}
use proxy_protocol_rs.Builder.Header.Endpoints.{Endpoints}

-- `W: AsyncWrite + Unpin`. The law is the documentation of `write_all`: where it succeeds, all bytes
-- have been written, in order.
pub record AsyncWrite : Type 1 where
  pub Writer : Type 0
  pub written : Writer → List ℕ
  pub write_all : List ℕ → Writer → Outcome (Unit {0}) IoError × Writer
  pub write_all_law :
      (bytes : List ℕ) (w : Writer)
      → (write_all bytes w).0 ≡ ok tt
      → written (write_all bytes w).1 ≡ written w ++ bytes

module _ (a : AsyncWrite) where
  abbrev write_built : Outcome (List ℕ) ⊥ → a.Writer → Outcome ℕ IoError × a.Writer
  write_built (ok bytes) w = let (r, w') = a.write_all bytes w in (r >> ok (length bytes), w')
  write_built (err e) w = absurd e
  write_built panic w = (panic, w)
  write_built stuck w = (stuck, w)

  unfoldable pub write_to : Crc32c → HeaderBuilder → a.Writer → Outcome ℕ IoError × a.Writer
  write_to c h w = write_built (build c h) w

  -- A writing that comes back
  pub write_to-ok :
      (c : Crc32c) (h : HeaderBuilder) (w : a.Writer) (n : ℕ)
      → (write_to c h w).0 ≡ ok n
      → (bytes : List ℕ) × (build c h ≡ ok bytes)
        × (length bytes ≡ n)
        × (a.written (write_to c h w).1 ≡ a.written w ++ bytes)
  unfolding write_to
  write_to-ok c h w n e = built (build c h) refl
    where
      built :
          (r : Outcome (List ℕ) ⊥)
          → build c h ≡ r
          → (bytes : List ℕ) × (build c h ≡ ok bytes)
            × (length bytes ≡ n)
            × (a.written (write_to c h w).1 ≡ a.written w ++ bytes)
      built (ok bytes) q =
          let e' : (write_built (ok bytes) w).0 ≡ ok n =
            ap (λ k. (write_built k w).0) (sym q) ∙ e in
          let (done, len) = >>-eq-ok (a.write_all bytes w).0 (ok (length bytes)) e' in
          (
            bytes,
            q,
            ok-injective len,
            ap (λ k. a.written (write_built k w).1) q ∙ a.write_all_law bytes w done,
          )
      built (err x) q = absurd x
      built panic q = cc (ap (λ k. (write_built k w).0) (sym q) ∙ e)
      built stuck q = cc (ap (λ k. (write_built k w).0) (sym q) ∙ e)
