-- ===== src/Parse/V2/Zeroed.antt =====
-- What `compute_crc32c` of parse/v2.rs computes, over the wire form of the TLVs.
use proxy_protocol_rs.Prelude.{
  ℕ, zero, suc, ◌+◌, ◌/◌, ◌%◌, ◌<◌, ◌≡◌, sym, ap, ◌∙◌, inl, inr, List, [], ◌∷◌, ◌++◌, append_assoc,
  length, take, drop, replicate, All, slice_lem, index-append, length-append, take-append,
  drop-append, be16, Bool-cases, ◌&&◌, lt→leb, le→ltb, ==_iff, ◌==◌, if◌then◌else◌, ok, arith,
}
use proxy_protocol_rs.Error.{ParseError}
use proxy_protocol_rs.Crc.{Crc32c}
use proxy_protocol_rs.Parse.Wire.{Entry, wire}
use proxy_protocol_rs.Parse.V2.{crc_without, find_crc_loop, compute_crc32c}
use proxy_protocol_rs.Parse.V2.Crc.{sub_zero, crc_without_lem, find_crc_loop_round}

-- The TLVs with the value of the first checksum among them zeroed.
abbrev pub zero_crc : List Entry → List Entry
zero_crc [] = []
zero_crc ((k, v) ∷ es) = if k == 0x03 then (k, replicate 4 0) ∷ es else (k, v) ∷ zero_crc es

-- A checksum has four bytes.
abbrev pub IsSound : Entry → Type 0
IsSound (k, v) = (k ≡ 0x03 → length v ≡ 4) × (length v < 65536)

-- A TLV in front, before `r`
abbrev frame : ℕ → List ℕ → List ℕ → List ℕ
frame k v r = k ∷ (length v / 256) ∷ (length v % 256) ∷ (v ++ r)

abbrev head_of : ℕ → List ℕ → List ℕ
head_of k v = k ∷ (length v / 256) ∷ (length v % 256) ∷ []

take-frame :
    (k : ℕ) (pre v r : List ℕ) → take (length pre + 3) (pre ++ frame k v r) ≡ pre ++ head_of k v
take-frame k pre v r =
    ap (take (length pre + 3)) (sym (append_assoc pre (head_of k v) (v ++ r)))
    ∙ take-append (pre ++ head_of k v) (v ++ r) (length pre + 3)
        (omega (arith, length-append pre (head_of k v)))

drop-frame :
    (k : ℕ) (pre v r : List ℕ) → length v ≡ 4 → drop (length pre + 3 + 4) (pre ++ frame k v r) ≡ r
drop-frame k pre v r h =
    ap (drop (length pre + 3 + 4)) (sym (append_assoc pre (head_of k v ++ v) r))
    ∙ drop-append (pre ++ (head_of k v ++ v)) r (length pre + 3 + 4)
        (omega (arith, length-append pre (head_of k v ++ v)))

length-pre-frame :
    (k : ℕ) (pre v r : List ℕ)
    → length (pre ++ frame k v r) ≡ length pre + (3 + length v + length r)
length-pre-frame k pre v r = omega (arith, length-append pre (frame k v r), length-append v r)

zeroed :
    (k : ℕ) (pre v r : List ℕ)
    → length v ≡ 4
    → ((pre ++ head_of k v) ++ (0 ∷ 0 ∷ 0 ∷ 0 ∷ [])) ++ r ≡ pre ++ frame k (replicate 4 0) r
zeroed k pre v r h =
    rw (h, append_assoc (pre ++ head_of k (replicate 4 0)) (0 ∷ 0 ∷ 0 ∷ 0 ∷ []) r)
      (append_assoc pre (head_of k (replicate 4 0)) (0 ∷ 0 ∷ 0 ∷ 0 ∷ r))

module _ (c : Crc32c) where
  -- The checksum's TLV is found, and its value zeroed.
  found :
      (k : ℕ) (pre v r : List ℕ)
      → length v ≡ 4
      → crc_without c (pre ++ frame k v r) (length pre + 3)
        ≡ ok (c.crc32c (pre ++ frame k (replicate 4 0) r))
  found k pre v r h =
      crc_without_lem c (pre ++ frame k v r) (length pre + 3)
        (omega (arith, length-pre-frame k pre v r))
      ∙ rw (take-frame k pre v r, drop-frame k pre v r h, zeroed k pre v r h)

  -- One round at a TLV in the wire form.
  round_frame :
      (fuel : ℕ) (pre v r : List ℕ) (k n : ℕ)
      → length v < 65536
      → length (pre ++ frame k v r) ≡ n
      → find_crc_loop c (suc fuel) (pre ++ frame k v r) n (length pre) ≡ (
          if k == 0x03 && length v == 4
          then crc_without c (pre ++ frame k v r) (length pre + 3)
          else find_crc_loop c fuel (pre ++ frame k v r) n (length pre + (3 + length v)))
  round_frame fuel pre v r k n fits e =
      let len : be16 (length v / 256) (length v % 256) ≡ length v = omega arith in
      let whole : n ≡ length pre + (3 + length v + length r) = sym e ∙ length-pre-frame k pre v r in
      find_crc_loop_round c fuel (pre ++ frame k v r) n (length pre) k (length v / 256)
        (length v % 256) (omega arith) (index-append pre (frame k v r) 0 _ (omega arith))
        (index-append pre (frame k v r) 1 _ (omega arith))
        (index-append pre (frame k v r) 2 _ (omega arith))
      ∙ rw (len, le→ltb n (length pre + 3 + length v) (omega arith))

  find_crc_loop-wire :
      (es : List Entry) (fuel : ℕ) (pre : List ℕ) (n : ℕ)
      → All IsSound es
      → length (pre ++ wire es) ≡ n
      → n < fuel + length pre
      → find_crc_loop c fuel (pre ++ wire es) n (length pre)
        ≡ ok (c.crc32c (pre ++ wire (zero_crc es)))
  find_crc_loop-wire es zero pre n s e h = absurd (omega (arith, length-append pre (wire es)))
  find_crc_loop-wire [] (suc fuel) pre n s e h =
      unfold find_crc_loop in rw (lt→leb (length pre + 3) n (omega (arith, length-append pre [])))
  find_crc_loop-wire ((k, v) ∷ es) (suc fuel) pre n s e h =
      round_frame fuel pre v (wire es) k n s.0.1 e ∙ elim (Bool-cases (k == 0x03)) [
        | inl q ↦
            let four : length v ≡ 4 = s.0.0 ((==_iff k 0x03).0 q) in
            rw (q, (==_iff (length v) 4).1 four) (found k pre v (wire es) four)
        | inr q ↦
            let pre' = pre ++ (head_of k v ++ v) in
            let at : length pre' ≡ length pre + (3 + length v) =
              omega (arith, length-append pre (head_of k v ++ v)) in
            rw
              (
                q,
                ← append_assoc pre (head_of k v ++ v) (wire es),
                ← append_assoc pre (head_of k v ++ v) (wire (zero_crc es)),
                ← at,
              )
              (find_crc_loop-wire es fuel pre' n s.1
                (ap length (append_assoc pre (head_of k v ++ v) (wire es)) ∙ e) (omega arith))
      ]

  -- On a header whose TLVs are in the wire form and sound, `compute_crc32c` is the checksum of the
  -- header with the value of its first checksum TLV zeroed, whatever follows the header.
  pub compute_crc32c-wire :
      (pre : List ℕ) (es : List Entry) (more : List ℕ) (n : ℕ)
      → All IsSound es
      → n ≡ length (pre ++ wire es)
      → compute_crc32c c ((pre ++ wire es) ++ more) n (length pre)
        ≡ ok (c.crc32c (pre ++ wire (zero_crc es)))
  unfolding compute_crc32c
  compute_crc32c-wire pre es more n s e =
      rw
        (
          slice_lem {E = ParseError} ((pre ++ wire es) ++ more) 0 n (omega arith)
              (omega (arith, length-append (pre ++ wire es) more)),
          sub_zero n,
          take-append (pre ++ wire es) more n e,
        )
        (find_crc_loop-wire es (n + 1) pre n s (sym e) (omega (arith, length-append pre (wire es))))
