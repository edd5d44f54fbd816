-- ===== src/Parse/V2/Errors.antt =====
-- The errors of parse/v2.rs.
use proxy_protocol_rs.Prelude.{
  ℕ, ◌≡◌, refl, inl, inr, All, ◌+◌, ◌-◌, ◌/◌, ◌≤◌, ◌<◌, ◌≢◌, true, not, Bool-cases, ltb, ltb→lt,
  ltb_false→le, ◌==◌, ==_iff, List, length, length-take, length-drop, take, drop, slice_lem, index,
  All, IsByte, be16, bit_and, bit_and-lt, ok, fail_if, OnErr, OnErr-ok, OnErr-err, OnErr->>=,
  OnErr->>, fail_if-OnErr, arith,
}
use proxy_protocol_rs.Types.{proxy, Command}
use proxy_protocol_rs.Error.{ParseError, incomplete, invalid, unsupported_version, unknown_command}
use proxy_protocol_rs.Error.Reasons.{ByteAt, IsExplained}
use proxy_protocol_rs.Crc.{Crc32c}
use proxy_protocol_rs.Parse.V2.{
  command_of, addresses_of, tlvs_of, check_crc, parse_v2_payload, parse_v2,
}
use proxy_protocol_rs.Parse.V2.Ranges.{index-IsByte}
use proxy_protocol_rs.Parse.V2.Inside.{addresses_of-Inside, Inside-ok}
use proxy_protocol_rs.Parse.V2.Reads.{index-OnErr}
use proxy_protocol_rs.Parse.V2.PayloadErrors.{addresses_of-IsExplained, tlvs_of-IsExplained}
use proxy_protocol_rs.Parse.V2.CrcErrors.{check_crc-IsExplained}

module _ (c : Crc32c) where
  parse_v2_payload-IsExplained :
      (cmd : Command) (vc fp hi lo : ℕ) (buf : List ℕ)
      → ByteAt buf 12 vc
      → ByteAt buf 13 fp
      → (cmd ≡ proxy → bit_and vc 0x0f ≡ 1)
      → IsByte fp
      → IsByte hi
      → IsByte lo
      → OnErr (IsExplained buf) (parse_v2_payload c cmd fp hi lo buf)
  unfolding parse_v2_payload
  parse_v2_payload-IsExplained cmd vc fp hi lo buf at12 at13 command hfp hhi hlo =
      elim (Bool-cases (ltb (length buf) (16 + be16 hi lo))) [
        | inl short ↦ rw short (OnErr-err incomplete (omega (arith, ltb→lt _ _ short)))
        | inr long ↦
            let n = 16 + be16 hi lo in
            let fits : n ≤ length buf = ltb_false→le _ _ long in
            let payload = take (n - 16) (drop 16 buf) in
            let len : length payload ≡ n - 16 =
              omega (arith, length-take (n - 16) (drop 16 buf), length-drop 16 buf) in
            let inside = addresses_of-Inside cmd (fp / 16) (bit_and fp 0x0f) payload in
            rw (long, slice_lem {E = ParseError} buf 16 n (omega arith) fits)
              (OnErr->>= (addresses_of cmd (fp / 16) (bit_and fp 0x0f) payload) _
                (addresses_of-IsExplained buf payload (omega arith) vc fp at12 at13 cmd command hfp)
                λ a e.
                  OnErr->>= (tlvs_of cmd a.tlv_offset payload) _
                    (tlvs_of-IsExplained buf payload (omega arith) vc fp at12 at13 cmd a.tlv_offset
                      (Inside-ok payload inside e))
                    λ t q.
                      OnErr->> (check_crc c t.crc32c buf n (16 + a.tlv_offset)) _
                        (check_crc-IsExplained c buf t.crc32c buf n (16 + a.tlv_offset))
                        λ k. OnErr-ok _)
      ]

  command_of-IsExplained :
      (buf : List ℕ) (vc n : ℕ)
      → ByteAt buf 12 vc
      → n ≡ bit_and vc 0x0f
      → n < 16
      → OnErr (IsExplained buf) (command_of n)
  unfolding command_of
  command_of-IsExplained buf vc n at12 same h = elim (Bool-cases (n == 0)) [
    | inl e ↦ rw e (OnErr-ok _)
    | inr n0 ↦ elim (Bool-cases (n == 1)) [
      | inl e ↦ rw (n0, e) (OnErr-ok _)
      | inr n1 ↦
          rw (n0, n1) (OnErr-err (invalid (unknown_command n)) (vc, at12, same, ground arith, h))
    ]
  ]

  command_of-proxy : (n : ℕ) (cmd : Command) → command_of n ≡ ok cmd → cmd ≡ proxy → n ≡ 1
  unfolding command_of
  command_of-proxy n cmd h e = elim (Bool-cases (n == 0)) [
    | inl z ↦ absurd (cc (rw z at h, e))
    | inr n0 ↦ elim (Bool-cases (n == 1)) [
      | inl one ↦ (==_iff n 1).0 one
      | inr n1 ↦ absurd (cc (rw (n0, n1) at h))
    ]
  ]

  pub parse_v2-IsExplained :
      (buf : List ℕ) → All IsByte buf → OnErr (IsExplained buf) (parse_v2 c buf)
  unfolding parse_v2
  parse_v2-IsExplained buf bytes =
      let byte : (i : ℕ) (b : ℕ) → index {E = ParseError} buf i ≡ ok b → IsByte b =
        λ i b e. (index-IsByte buf i bytes).on_ok b e in
      OnErr->> (fail_if (ltb (length buf) 16) incomplete) _
        (fail_if-OnErr (ltb (length buf) 16) incomplete λ q. omega (arith, ltb→lt _ _ q))
        λ q. OnErr->>= (index buf 12) _ (index-OnErr buf 12) λ vc e12.
          OnErr->> (fail_if (not (vc / 16 == 2)) (invalid (unsupported_version (vc / 16)))) _
            (fail_if-OnErr (not (vc / 16 == 2)) (invalid (unsupported_version (vc / 16)))
              λ k. (vc, e12, refl, omega (arith, byte 12 vc e12), λ r. not_two (vc / 16) k r))
            λ k.
              OnErr->>= (command_of (bit_and vc 0x0f)) _
                (command_of-IsExplained buf vc (bit_and vc 0x0f) e12 refl
                  (bit_and-lt vc (byte 12 vc e12)))
                λ cmd ec. OnErr->>= (index buf 13) _ (index-OnErr buf 13) λ fp e13.
                  OnErr->>= (index buf 14) _ (index-OnErr buf 14) λ hi e14.
                    OnErr->>= (index buf 15) _ (index-OnErr buf 15) λ lo e15.
                      parse_v2_payload-IsExplained cmd vc fp hi lo buf e12 e13
                        (command_of-proxy (bit_and vc 0x0f) cmd ec) (byte 13 fp e13)
                        (byte 14 hi e14) (byte 15 lo e15)
    where
      not_two : (v : ℕ) → not (v == 2) ≡ true → v ≢ 2
      not_two v q r = cc (q, (==_iff v 2).1 r)
