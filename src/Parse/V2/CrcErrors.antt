-- ===== src/Parse/V2/CrcErrors.antt =====
-- The errors of parse/v2.rs in the check of the checksum.
use proxy_protocol_rs.Prelude.{
  ℕ, zero, suc, ◌+◌, ◌≡◌, ◌≢◌, sym, inl, inr, true, not, Bool-cases, ltb, ◌==◌, ==_iff, none, some,
  Option, List, slice_from, be16, OnErr, OnErr-ok, OnErr-stuck, OnErr->>=, fail_if-OnErr, leb, ◌&&◌,
}
use proxy_protocol_rs.Error.{ParseError, crc_mismatch}
use proxy_protocol_rs.Error.Reasons.{IsExplained}
use proxy_protocol_rs.Crc.{Crc32c}
use proxy_protocol_rs.Parse.V2.{crc_without, find_crc_loop, compute_crc32c, check_crc}
use proxy_protocol_rs.Parse.V2.Reads.{slice_from-OnErr, at_byte, at_slice}

module _ (c : Crc32c) where
  crc_without-OnErr :
      {P : ParseError → Type 0} (header : List ℕ) (p : ℕ) → OnErr P (crc_without c header p)
  unfolding crc_without
  crc_without-OnErr header p = at_slice header 0 p _ λ before.
      OnErr->>= (slice_from header (p + 4)) _ (slice_from-OnErr header (p + 4))
        λ after e. OnErr-ok _

  find_crc_loop-OnErr :
      {P : ParseError → Type 0} (fuel : ℕ) (header : List ℕ) (n pos : ℕ)
      → OnErr P (find_crc_loop c fuel header n pos)
  unfolding find_crc_loop
  find_crc_loop-OnErr zero header n pos = OnErr-stuck
  find_crc_loop-OnErr (suc fuel) header n pos = elim (Bool-cases (leb (pos + 3) n)) [
    | inr e ↦ rw e (OnErr-ok _)
    | inl e ↦ rw e (
        at_byte header pos _ λ t. at_byte header (pos + 1) _ λ hi. at_byte header (pos + 2) _ λ lo.
          (elim (Bool-cases (ltb n (pos + 3 + be16 hi lo))) [
            | inl out ↦ rw out (OnErr-ok _)
            | inr inside ↦ elim (Bool-cases (t == 0x03 && be16 hi lo == 4)) [
              | inl found ↦ rw (inside, found) (crc_without-OnErr header (pos + 3))
              | inr other ↦
                  rw (inside, other) (find_crc_loop-OnErr fuel header n (pos + (3 + be16 hi lo)))
            ]
          ]))
  ]

  compute_crc32c-OnErr :
      {P : ParseError → Type 0} (buf : List ℕ) (n start : ℕ)
      → OnErr P (compute_crc32c c buf n start)
  unfolding compute_crc32c
  compute_crc32c-OnErr buf n start =
      at_slice buf 0 n _ λ header. find_crc_loop-OnErr (n + 1) header n start

  pub check_crc-IsExplained :
      (m : List ℕ) (expected : Option ℕ) (buf : List ℕ) (n start : ℕ)
      → OnErr (IsExplained m) (check_crc c expected buf n start)
  unfolding check_crc
  check_crc-IsExplained m none buf n start = OnErr-ok tt
  check_crc-IsExplained m (some x) buf n start =
      OnErr->>= (compute_crc32c c buf n start) _ (compute_crc32c-OnErr buf n start) λ actual e.
        fail_if-OnErr (not (actual == x)) (crc_mismatch x actual) λ q r. differ x actual q r
    where
      differ : (x actual : ℕ) → not (actual == x) ≡ true → x ≢ actual
      differ x actual q r = cc (q, (==_iff actual x).1 (sym r))
