-- ===== src/Parse/Header/Errors.antt =====
-- The errors of `parse` of parse/mod.rs.
use proxy_protocol_rs.Prelude.{
  ℕ, ◌<◌, ◌≡◌, inl, inr, Bool-cases, ltb, ltb→lt, ◌==◌, bytes_eq, starts_with, List, [], ◌∷◌,
  length, slice, All, IsByte, err, fail_if, OnErr, OnErr-err, OnErr->>=, OnErr->>, fail_if-OnErr,
  arith,
}
use proxy_protocol_rs.Error.{ParseError, incomplete, not_proxy_protocol}
use proxy_protocol_rs.Error.Reasons.{IsExplained}
use proxy_protocol_rs.Crc.{Crc32c}
use proxy_protocol_rs.Parse.V1.Errors.{parse_v1-IsExplained}
use proxy_protocol_rs.Parse.V2.Reads.{slice-OnErr}
use proxy_protocol_rs.Parse.V2.Errors.{parse_v2-IsExplained}
use proxy_protocol_rs.Parse.Header.{v2_signature, v1_prefix, parse_text, parse_binary, parse}

parse_text-IsExplained : (buf : List ℕ) → 0 < length buf → OnErr (IsExplained buf) (parse_text buf)
unfolding parse_text
parse_text-IsExplained buf some_byte =
    OnErr->> (fail_if (ltb (length buf) 6) incomplete) _
      (fail_if-OnErr (ltb (length buf) 6) incomplete λ q. omega (arith, ltb→lt _ _ q))
      λ q. (elim (Bool-cases (starts_with buf v1_prefix)) [
        | inl e ↦ rw e (parse_v1-IsExplained buf)
        | inr e ↦ rw e (OnErr-err not_proxy_protocol some_byte)
      ])

module _ (c : Crc32c) where
  parse_binary-IsExplained :
      (buf : List ℕ)
      → 0 < length buf
      → All IsByte buf
      → OnErr (IsExplained buf) (parse_binary c buf)
  unfolding parse_binary
  parse_binary-IsExplained buf some_byte bytes =
      OnErr->> (fail_if (ltb (length buf) 12) incomplete) _
        (fail_if-OnErr (ltb (length buf) 12) incomplete λ q. omega (arith, ltb→lt _ _ q))
        λ q. OnErr->>= (slice buf 0 12) _ (slice-OnErr buf 0 12) λ first e.
          (elim (Bool-cases (bytes_eq first v2_signature)) [
            | inl e ↦ rw e (parse_v2-IsExplained c buf bytes)
            | inr e ↦ rw e (OnErr-err not_proxy_protocol some_byte)
          ])

  parse-OnErr : (buf : List ℕ) → All IsByte buf → OnErr (IsExplained buf) (parse c buf)
  unfolding parse
  parse-OnErr [] bytes = OnErr-err incomplete (omega arith)
  parse-OnErr (b ∷ bs) bytes = elim (Bool-cases (b == 0x0d)) [
    | inl e ↦ rw e (parse_binary-IsExplained (b ∷ bs) (omega arith) bytes)
    | inr e ↦ elim (Bool-cases (b == b'P')) [
      | inl f ↦ rw (e, f) (parse_text-IsExplained (b ∷ bs) (omega arith))
      | inr f ↦ rw (e, f) (OnErr-err not_proxy_protocol (omega arith))
    ]
  ]

-- What an error that `parse` gives on bytes says of them, error by error. `Incomplete`: there are
-- fewer bytes than 65551, the length of the longest header. `NotProxyProtocol`: there is one at
-- least. `UnsupportedVersion`: the number is the high half of byte 12, and not 2.
-- `UnknownCommand`: it is the low half of byte 12, and 2 or more. `UnknownFamily`: it is the high
-- half of byte 13, and 4 or more. `UnknownProtocol`: it is the low half of byte 13, and 3 or
-- more. `UnspecWithProxy`: the low half of byte 12 is 1, the command PROXY, and a half of byte 13
-- is 0. `V1TooLong`: there are 107 bytes or more, and no CR LF in the first 107. For the other
-- errors of the text format the buffer begins with a line and CR LF. `V1NotUtf8`: the line is not
-- UTF-8. `V1InvalidFormat`: it is not made of six parts without a space, one between each two.
-- For the three errors that follow it is made of six such parts. `V1UnknownTransport` names the
-- second one, which is neither TCP4 nor TCP6. `InvalidIp`: the second one is TCP4 or TCP6, and
-- the error names the third or the fourth one, which is not an address of that family.
-- `InvalidPort` names the fifth or the sixth one, which is not the text of a u16.
-- `PayloadOverflow`: the length that it needs is larger than the one that it says is there, and
-- the buffer has those bytes behind the first 16. `MalformedTlv`: the offset lies inside the
-- buffer, counted from byte 16. `CrcMismatch`: its two checksums differ.
pub parse-IsExplained :
    (c : Crc32c) (buf : List ℕ) (e : ParseError)
    → All IsByte buf
    → parse c buf ≡ err e
    → IsExplained buf e
parse-IsExplained c buf e bytes h = (parse-OnErr c buf bytes).on_err e h
