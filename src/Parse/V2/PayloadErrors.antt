-- ===== src/Parse/V2/PayloadErrors.antt =====
-- The errors of parse/v2.rs in the payload: its addresses and its TLVs.
use proxy_protocol_rs.Prelude.{
  ℕ, ◌+◌, ◌≤◌, ◌<◌, inl, inr, Bool-cases, ltb, ltb→lt, ◌==◌, ==_iff, ◌≡◌, ◌/◌, refl, bit_and,
  bit_and-lt, IsByte, List, length, length-drop, drop, slice_from_lem, Outcome, ok, err, panic,
  stuck, fail_if, OnErr, OnErr-ok, OnErr-panic, OnErr-stuck, OnErr-err, OnErr->>=, OnErr->>,
  fail_if-OnErr, unwrap_or_default, arith,
}
use proxy_protocol_rs.Types.{
  Command, local, proxy, AddressFamily, inet4, inet6, unix_family, Transport, Tlvs, tlvs_default,
}
use proxy_protocol_rs.Error.{
  ParseError, invalid, unknown_family, unknown_protocol, unspec_with_proxy, payload_overflow,
}
use proxy_protocol_rs.Error.Reasons.{ByteAt, IsExplained}
use proxy_protocol_rs.Parse.Tlv.{parse_tlvs}
use proxy_protocol_rs.Parse.Tlv.Errors.{parse_tlvs-Malformed}
use proxy_protocol_rs.Parse.V2.{
  family_of, protocol_of, ipv6_of, parse_inet, parse_inet6, parse_unix, parse_family,
  parse_v2_addresses, addresses_of, tlvs_of_command, tlvs_of,
}
use proxy_protocol_rs.Parse.V2.Reads.{ipv6_of-OnErr, at_byte, at_slice}

-- A payload of the buffer's bytes behind the fixed header, and the bytes of version and command and of
-- family and protocol
module _ (buf payload : List ℕ) (fits : 16 + length payload ≤ length buf) (vc fp : ℕ)
    (at12 : ByteAt buf 12 vc) (at13 : ByteAt buf 13 fp) where
  too_short :
      (need : ℕ)
      → OnErr
          (IsExplained buf)
          (fail_if (ltb (length payload) need) (invalid (payload_overflow need (length payload))))
  too_short need =
      fail_if-OnErr (ltb (length payload) need) (invalid (payload_overflow need (length payload)))
        λ q. (ltb→lt _ _ q, fits)

  abbrev short : ℕ → Outcome (Unit {0}) ParseError
  short need =
      fail_if (ltb (length payload) need) (invalid (payload_overflow need (length payload)))

  parse_family-IsExplained :
      (f : AddressFamily) (t : Transport) → OnErr (IsExplained buf) (parse_family f t payload)
  unfolding parse_inet parse_inet6 parse_unix
  parse_family-IsExplained inet4 t = OnErr->> (short 12) _ (too_short 12) λ q.
      at_byte payload 0 _ λ s0. at_byte payload 1 _ λ s1. at_byte payload 2 _ λ s2.
        at_byte payload 3 _ λ s3. at_byte payload 4 _ λ d0. at_byte payload 5 _ λ d1.
          at_byte payload 6 _ λ d2. at_byte payload 7 _ λ d3. at_byte payload 8 _ λ a.
            at_byte payload 9 _ λ b. at_byte payload 10 _ λ c. at_byte payload 11 _ λ d. OnErr-ok _
  parse_family-IsExplained inet6 t = OnErr->> (short 36) _ (too_short 36) λ q.
      at_slice payload 0 16 _ λ x. OnErr->>= (ipv6_of x) _ (ipv6_of-OnErr x) λ s es.
        at_slice payload 16 32 _ λ y. OnErr->>= (ipv6_of y) _ (ipv6_of-OnErr y) λ d ed.
          at_byte payload 32 _ λ a.
            at_byte payload 33 _ λ b. at_byte payload 34 _ λ c. at_byte payload 35 _ λ e. OnErr-ok _
  parse_family-IsExplained unix_family t =
      OnErr->> (short 216) _ (too_short 216)
        λ q. at_slice payload 0 108 _ λ x. at_slice payload 108 216 _ λ y. OnErr-ok _

  family_of-IsExplained :
      (f : ℕ) → f ≡ fp / 16 → 0 < f → f < 16 → OnErr (IsExplained buf) (family_of f)
  unfolding family_of
  family_of-IsExplained f same pos lt = elim (Bool-cases (f == 1)) [
    | inl e ↦ rw e (OnErr-ok _)
    | inr n1 ↦ elim (Bool-cases (f == 2)) [
      | inl e ↦ rw (n1, e) (OnErr-ok _)
      | inr n2 ↦ elim (Bool-cases (f == 3)) [
        | inl e ↦ rw (n1, n2, e) (OnErr-ok _)
        | inr n3 ↦
            rw (n1, n2, n3)
              (OnErr-err (invalid (unknown_family f)) (fp, at13, same, ground arith, lt))
      ]
    ]
  ]

  protocol_of-IsExplained :
      (p : ℕ) → p ≡ bit_and fp 0x0f → 0 < p → p < 16 → OnErr (IsExplained buf) (protocol_of p)
  unfolding protocol_of
  protocol_of-IsExplained p same pos lt = elim (Bool-cases (p == 1)) [
    | inl e ↦ rw e (OnErr-ok _)
    | inr n1 ↦ elim (Bool-cases (p == 2)) [
      | inl e ↦ rw (n1, e) (OnErr-ok _)
      | inr n2 ↦
          rw (n1, n2) (OnErr-err (invalid (unknown_protocol p)) (fp, at13, same, ground arith, lt))
    ]
  ]

  pub addresses_of-IsExplained :
      (cmd : Command)
      → (cmd ≡ proxy → bit_and vc 0x0f ≡ 1)
      → IsByte fp
      → OnErr (IsExplained buf) (addresses_of cmd (fp / 16) (bit_and fp 0x0f) payload)
  unfolding addresses_of parse_v2_addresses
  addresses_of-IsExplained local command hfp = OnErr-ok _
  addresses_of-IsExplained proxy command hfp =
      let f = fp / 16 in
      let p = bit_and fp 0x0f in
      elim (Bool-cases (f == 0)) [
        | inl e ↦ rw e (
            OnErr-err (invalid unspec_with_proxy)
              (vc, fp, at12, at13, command refl, inl ((==_iff f 0).0 e)))
        | inr e ↦ elim (Bool-cases (p == 0)) [
          | inl g ↦
              rw (e, g)
                (OnErr-err (invalid unspec_with_proxy)
                  (vc, fp, at12, at13, command refl, inr ((==_iff p 0).0 g)))
          | inr g ↦
              rw (e, g)
                (OnErr->>= (family_of f) _
                  (family_of-IsExplained f refl (ground arith) (omega arith))
                  λ family ef.
                    OnErr->>= (protocol_of p) _
                      (protocol_of-IsExplained p refl (ground arith) (bit_and-lt fp hfp))
                      λ protocol ep. parse_family-IsExplained family _)
        ]
      ]

  tlvs_of_command-IsExplained :
      (cmd : Command) (bytes : List ℕ)
      → length bytes ≤ length payload
      → OnErr (IsExplained buf) (tlvs_of_command cmd bytes)
  unfolding tlvs_of_command
  tlvs_of_command-IsExplained proxy bytes le = record {
    on_err = λ e q.
        let (offset, same, lo, hi) = (parse_tlvs-Malformed bytes).on_err e q in
        rw same (omega arith);
  }
  tlvs_of_command-IsExplained local bytes le = never (parse_tlvs bytes)
    where
      never :
          (r : Outcome Tlvs ParseError)
          → OnErr {E = ParseError} (IsExplained buf) (unwrap_or_default tlvs_default r)
      never (ok t) = OnErr-ok t
      never (err e) = OnErr-ok tlvs_default
      never panic = OnErr-panic
      never stuck = OnErr-stuck

  pub tlvs_of-IsExplained :
      (cmd : Command) (o : ℕ) → o ≤ length payload → OnErr (IsExplained buf) (tlvs_of cmd o payload)
  unfolding tlvs_of
  tlvs_of-IsExplained cmd o le = elim (Bool-cases (ltb o (length payload))) [
    | inr e ↦ rw e (OnErr-ok tlvs_default)
    | inl e ↦
        rw (e, slice_from_lem {E = ParseError} payload o le)
          (tlvs_of_command-IsExplained cmd (drop o payload) (omega (arith, length-drop o payload)))
  ]
