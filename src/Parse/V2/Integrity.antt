-- ===== src/Parse/V2/Integrity.antt =====
-- The checksum that `parse_v2` of parse/v2.rs checks.
use proxy_protocol_rs.Prelude.{
  ℕ, ◌+◌, ◌-◌, ◌≤◌, ◌≡◌, subst, sym, ap, ◌∙◌, List, [], ◌∷◌, ◌++◌, length, take, drop, All,
  All-take, All-drop, IsByte, take-append-drop, take-split, drop-take, drop-drop, slice_from_lem,
  length-take, length-drop, ok, some, arith,
}
use proxy_protocol_rs.Types.{Command, local, proxy, Tlvs, ProxyInfo}
use proxy_protocol_rs.Error.{ParseError}
use proxy_protocol_rs.Crc.{Crc32c}
use proxy_protocol_rs.Parse.Wire.{Entry, wire, Fits}
use proxy_protocol_rs.Parse.Tlv.{parse_tlvs}
use proxy_protocol_rs.Parse.Tlv.Accept.{IsAcceptable}
use proxy_protocol_rs.Parse.Tlv.Loop.{parse_tlvs-lossless}
use proxy_protocol_rs.Parse.V2.{tlvs_of_command, tlvs_of, compute_crc32c, check_crc, parse_v2}
use proxy_protocol_rs.Parse.V2.Inside.{addresses_of-Inside, Inside-ok}
use proxy_protocol_rs.Parse.V2.Parsed.{payload_of, Parsed, parse_v2-ParsedV2}
use proxy_protocol_rs.Parse.V2.Zeroed.{IsSound, zero_crc, compute_crc32c-wire}

-- TLVs with a checksum among them were read from the bytes, also in a LOCAL header.
command_parsed :
    (cmd : Command) (bytes : List ℕ) (t : Tlvs) (x : ℕ)
    → tlvs_of_command cmd bytes ≡ ok t
    → t.crc32c ≡ some x
    → parse_tlvs bytes ≡ ok t
unfolding tlvs_of_command
command_parsed local bytes t x e s = ground arith
command_parsed proxy bytes t x e s = e

tlvs_parsed :
    (cmd : Command) (offset : ℕ) (payload : List ℕ) (t : Tlvs) (x : ℕ)
    → offset ≤ length payload
    → tlvs_of cmd offset payload ≡ ok t
    → t.crc32c ≡ some x
    → parse_tlvs (drop offset payload) ≡ ok t
unfolding tlvs_of
tlvs_parsed cmd offset payload t x h e s =
    command_parsed cmd (drop offset payload) t x
      (ground (arith, slice_from_lem {E = ParseError} payload offset h)) s

pub sound : (es : List Entry) → All Fits es → All IsAcceptable es → All IsSound es
sound [] f a = tt
sound ((k, v) ∷ es) f a = ((a.0.0, f.0), sound es f.1 a.1)

checked_sum :
    (c : Crc32c) (x : ℕ) (buf : List ℕ) (n start y : ℕ)
    → check_crc c (some x) buf n start ≡ ok tt
    → compute_crc32c c buf n start ≡ ok y
    → y ≡ x
unfolding check_crc
checked_sum c x buf n start y h e = ground arith

less : (n a b : ℕ) → n - a - b ≡ n - (a + b)
less n a b = omega arith

-- The front of the header and the rest of its payload
cut :
    (buf : List ℕ) (n off : ℕ)
    → 16 ≤ n
    → off ≤ n - 16
    → take n buf ≡ take (16 + off) buf ++ drop off (payload_of n buf)
cut buf n off h k =
    take-split (16 + off) n buf (omega arith)
    ∙ ap (λ q. take (16 + off) buf ++ q)
        (sym (
          drop-take off (n - 16) (drop 16 buf)
          ∙ (ap (take (n - 16 - off)) (drop-drop off 16 buf)
              ∙ ap (λ m. take m (drop (16 + off) buf)) (less n 16 off))))

module _ (c : Crc32c) where
  -- The checksum of a buffer whose header is `pre` and TLVs in the wire form
  sum_of_parts :
      (buf pre : List ℕ) (es : List Entry) (n start : ℕ)
      → All IsSound es
      → n ≤ length buf
      → take n buf ≡ pre ++ wire es
      → start ≡ length pre
      → compute_crc32c c buf n start ≡ ok (c.crc32c (pre ++ wire (zero_crc es)))
  sum_of_parts buf pre es n start s fits e at =
      let whole : buf ≡ (pre ++ wire es) ++ drop n buf =
        sym (take-append-drop n buf) ∙ ap (λ q. q ++ drop n buf) e in
      ap (λ b. compute_crc32c c b n start) whole
      ∙ (ap (compute_crc32c c ((pre ++ wire es) ++ drop n buf) n) at
          ∙ compute_crc32c-wire c pre es (drop n buf) n s
              (omega (arith, ap length e, length-take n buf)))

  checked_parts :
      (cmd : Command) (fp n : ℕ) (buf : List ℕ) (info : ProxyInfo) (x : ℕ)
      → All IsByte buf
      → info.tlvs.crc32c ≡ some x
      → Parsed c cmd fp n buf info
      → (start : ℕ) × (start ≤ n)
        × (take n buf ≡ take start buf ++ wire info.tlvs.raw)
        × (c.crc32c (take start buf ++ wire (zero_crc info.tlvs.raw)) ≡ x)
  checked_parts cmd fp n buf info x b s p =
      let off = p.addresses.tlv_offset in
      let t = p.tlvs in
      let payload = payload_of n buf in
      let same : info.tlvs ≡ t = ap (λ i. i.tlvs) p.result in
      let summed : t.crc32c ≡ some x = sym (ap (λ u. u.crc32c) same) ∙ s in
      let len : length payload ≡ n - 16 =
        omega (arith, p.fits, p.long, length-take (n - 16) (drop 16 buf), length-drop 16 buf) in
      let inside : off ≤ length payload =
        Inside-ok payload (addresses_of-Inside cmd _ _ payload) p.addressed in
      let bytes : All IsByte (drop off payload) =
        All-drop IsByte off payload
          (All-take IsByte (n - 16) (drop 16 buf) (All-drop IsByte 16 buf b)) in
      let (w, fits, acceptable, _) =
        parse_tlvs-lossless (drop off payload) t bytes
          (tlvs_parsed cmd off payload t x inside p.tagged summed) in
      let parts : take n buf ≡ take (16 + off) buf ++ wire t.raw =
        cut buf n off p.long (omega arith) ∙ ap (λ q. take (16 + off) buf ++ q) (sym w) in
      let run =
        sum_of_parts buf (take (16 + off) buf) t.raw n (16 + off) (sound t.raw fits acceptable)
          p.fits parts (omega (arith, p.fits, p.long, length-take (16 + off) buf)) in
      let right =
        checked_sum c x buf n (16 + off) _
          (ap (λ o. check_crc c o buf n (16 + off)) (sym summed) ∙ p.checked) run in
      subst
        (λ (u : Tlvs).
          (start : ℕ) × (start ≤ n)
          × (take n buf ≡ take start buf ++ wire u.raw)
          × (c.crc32c (take start buf ++ wire (zero_crc u.raw)) ≡ x))
        (sym same) (16 + off, omega (arith, p.long), parts, right)

  -- If `parse_v2` accepts bytes with a checksum among the TLVs, then the header that it took splits
  -- into a front and the TLVs of the raw list in the wire form, and the checksum is that of the header
  -- with the value of the first checksum TLV zeroed.
  pub parse_v2-integrity :
      (buf : List ℕ) (info : ProxyInfo) (n x : ℕ)
      → All IsByte buf
      → parse_v2 c buf ≡ ok (info, n)
      → info.tlvs.crc32c ≡ some x
      → (start : ℕ) × (start ≤ n)
        × (take n buf ≡ take start buf ++ wire info.tlvs.raw)
        × (c.crc32c (take start buf ++ wire (zero_crc info.tlvs.raw)) ≡ x)
  parse_v2-integrity buf info n x b h s =
      let p = parse_v2-ParsedV2 c buf info n h in
      checked_parts p.cmd p.header.fam_proto n buf info x b s p.parsed
