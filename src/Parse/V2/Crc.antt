-- ===== src/Parse/V2/Crc.antt =====
-- `compute_crc32c` of parse/v2.rs: the checksum with the CRC TLV's value read as zeroes.
use proxy_protocol_rs.Prelude.{
  ℕ, zero, suc, ◌+◌, ◌-◌, ◌≤◌, ◌<◌, ◌≡◌, sym, subst, inl, inr, List, [], ◌∷◌, ◌++◌, length, take,
  drop, index, slice_lem, slice_from_lem, index_lem, length-take, be16, Bool-cases, ltb, leb, ◌&&◌,
  leb→le, le→leb, ◌==◌, if◌then◌else◌, Outcome, ok, Returns, Returns->>=, Option, none, some, arith,
}
use proxy_protocol_rs.Error.{ParseError}
use proxy_protocol_rs.Crc.{Crc32c}
use proxy_protocol_rs.Parse.V2.{crc_without, find_crc_loop, compute_crc32c, check_crc}

pub sub_zero : (n : ℕ) → n - 0 ≡ n
sub_zero n = omega arith

module _ (c : Crc32c) where
  -- The three pieces together are the checksum of the header with the four bytes zeroed.
  pub crc_without_lem :
      (header : List ℕ) (p : ℕ)
      → p + 4 ≤ length header
      → crc_without c header p
        ≡ ok (c.crc32c ((take p header ++ (0 ∷ 0 ∷ 0 ∷ 0 ∷ [])) ++ drop (p + 4) header))
  unfolding crc_without
  crc_without_lem header p h = rw (
    slice_lem {E = ParseError} header 0 p (omega arith) (omega arith),
    slice_from_lem {E = ParseError} header (p + 4) h,
    c.append_law,
    c.append_law,
    sub_zero p,
  )

  crc_without-Returns :
      (header : List ℕ) (p : ℕ) → p + 4 ≤ length header → Returns (crc_without c header p)
  crc_without-Returns header p h = rw (crc_without_lem header p h) tt

  -- One round at a TLV that begins inside the header.
  pub find_crc_loop_round :
      (fuel : ℕ) (header : List ℕ) (n pos t hi lo : ℕ)
      → pos + 3 ≤ n
      → index {E = ParseError} header pos ≡ ok t
      → index {E = ParseError} header (pos + 1) ≡ ok hi
      → index {E = ParseError} header (pos + 2) ≡ ok lo
      → find_crc_loop c (suc fuel) header n pos ≡ (
          if ltb n (pos + 3 + be16 hi lo)
          then ok (c.crc32c header)
          else if t == 0x03 && be16 hi lo == 4
          then crc_without c header (pos + 3)
          else find_crc_loop c fuel header n (pos + (3 + be16 hi lo)))
  unfolding find_crc_loop
  find_crc_loop_round fuel header n pos t hi lo h it ihi ilo =
      rw (le→leb (pos + 3) n h, it, ihi, ilo)

  round-Returns :
      (header : List ℕ) (n pos t len : ℕ) (next : Outcome ℕ ParseError)
      → length header ≡ n
      → pos + 3 ≤ n
      → (pos + (3 + len) ≤ n → Returns next)
      → Returns (
          if ltb n (pos + 3 + len)
          then ok (c.crc32c header)
          else if t == 0x03 && len == 4
          then crc_without c header (pos + 3)
          else next)
  round-Returns header n pos t len next e h k = ground (arith, crc_without-Returns header (pos + 3))

  find_crc_loop-Returns :
      (fuel : ℕ) (header : List ℕ) (n pos : ℕ)
      → length header ≡ n
      → pos ≤ n
      → n < fuel + pos
      → Returns (find_crc_loop c fuel header n pos)
  find_crc_loop-Returns zero header n pos e le h = absurd (omega arith)
  find_crc_loop-Returns (suc fuel) header n pos e le h = elim (Bool-cases (leb (pos + 3) n)) [
    | inl more ↦
        let fits : pos + 3 ≤ n = leb→le _ _ more in
        let (t, it) = index_lem {E = ParseError} header pos (omega arith) in
        let (hi, ihi) = index_lem {E = ParseError} header (pos + 1) (omega arith) in
        let (lo, ilo) = index_lem {E = ParseError} header (pos + 2) (omega arith) in
        subst Returns (sym (find_crc_loop_round fuel header n pos t hi lo fits it ihi ilo)) (
          round-Returns header n pos t (be16 hi lo) _ e fits
            (λ le'. find_crc_loop-Returns fuel header n _ e le' (omega arith)))
    | inr done ↦ unfold find_crc_loop in rw done tt
  ]

  pub compute_crc32c-Returns :
      (buf : List ℕ) (n start : ℕ)
      → n ≤ length buf
      → start ≤ n
      → Returns (compute_crc32c c buf n start)
  unfolding compute_crc32c
  compute_crc32c-Returns buf n start h k = rw (slice_lem {E = ParseError} buf 0 n (omega arith) h) (
      find_crc_loop-Returns (n + 1) (take (n - 0) buf) n start
        (omega (arith, length-take (n - 0) buf)) k (omega arith))

  pub check_crc-Returns :
      (expected : Option ℕ) (buf : List ℕ) (n start : ℕ)
      → n ≤ length buf
      → start ≤ n
      → Returns (check_crc c expected buf n start)
  unfolding check_crc
  check_crc-Returns none buf n start h k = tt
  check_crc-Returns (some x) buf n start h k =
      Returns->>= _ _ (compute_crc32c-Returns buf n start h k) (λ a _. ground arith)
