-- ===== src/Builder/Header/TextRoundTrip.antt =====
-- `build` of builder.rs, for the text format, against `parse` of parse/mod.rs.
use proxy_protocol_rs.Prelude.{
  ℕ, ◌+◌, ◌≤◌, ◌≡◌, refl, sym, ap, ◌∙◌, subst, le→ltb, List, [], ◌∷◌, ◌++◌, append_assoc, length,
  length-append, take, take-append, slice_lem, All, Option, none, some, Outcome, ok, arith,
}
use proxy_protocol_rs.Std.Net.{SocketAddr, sock4, sock6, ip_of, port_of, is_ipv4}
use proxy_protocol_rs.Std.Ascii.{ascii-is_utf8}
use proxy_protocol_rs.Std.IpDisplay.{show_dec, show_ip}
use proxy_protocol_rs.Types.{ProxyAddress, inet, Transport, ProxyInfo}
use proxy_protocol_rs.Error.{ParseError}
use proxy_protocol_rs.Crc.{Crc32c}
use proxy_protocol_rs.Parse.V1.{is_unknown, proxy_unknown, unknown_info, parse_line, parse_v1}
use proxy_protocol_rs.Parse.V1.Total.{parse_v1_lem}
use proxy_protocol_rs.Parse.V1.Line.{window-line}
use proxy_protocol_rs.Parse.V2.Crc.{sub_zero}
use proxy_protocol_rs.Parse.Header.{parse_text, parse}
use proxy_protocol_rs.Builder.Calls.{HeaderBuilder, inet_family}
use proxy_protocol_rs.Builder.Header.{build_v1, build, text_line, crlf}
use proxy_protocol_rs.Builder.Header.TextReachable.{
  TextBuilt, TextEndpoints, nowhere, between, TextBuilt-IsTextHeader,
}
use proxy_protocol_rs.Builder.Header.TextLine.{
  word_of, fields_of, line_of, line, line_info, IsLineByte, checked-IsLineByte, line-IsLineByte,
  line-NoReturn, line-Ascii, line_parsed, line-length,
}

-- A line that parses, in the buffer
text_parsed :
    (text more : List ℕ) (info : ProxyInfo)
    → All IsLineByte text
    → length text + 2 ≤ 107
    → parse_line text ≡ ok info
    → parse_v1 ((text ++ crlf) ++ more) ≡ ok (info, length text + 2)
text_parsed text more info h k e =
    let buf = (text ++ crlf) ++ more in
    let len = length-append (text ++ crlf) more in
    let len' = length-append text crlf in
    let front : take (length text) buf ≡ text =
      ap (take (length text)) (append_assoc text crlf more)
      ∙ take-append text (crlf ++ more) (length text) refl in
    parse_v1_lem buf
    ∙ rw (
      window-line text more (line-NoReturn text h) k,
      slice_lem {E = ParseError} buf 0 (length text) (omega arith) (omega arith),
      sub_zero (length text),
      front,
      ascii-is_utf8 text (line-Ascii text h),
      e,
    )

-- What is built is the line and its end.
text_line-line : (s d : SocketAddr) → text_line (word_of (is_ipv4 s)) s d ≡ line s d ++ crlf
text_line-line s d =
    let a = show_ip (ip_of s) in
    let b = show_ip (ip_of d) in
    let p = show_dec (port_of s) in
    let q = show_dec (port_of d) in
    ap (line_of (is_ipv4 s)) (
      sym (
        append_assoc a (32 ∷ (b ++ (32 ∷ (p ++ (32 ∷ q))))) crlf
        ∙ ap (λ r. a ++ (32 ∷ r))
            (append_assoc b (32 ∷ (p ++ (32 ∷ q))) crlf
              ∙ ap (λ r. b ++ (32 ∷ r)) (append_assoc p (32 ∷ q) crlf))))

-- A text that begins with "PROXY " goes to the text parser.
parse-text :
    (c : Crc32c) (rest : List ℕ)
    → parse c (80 ∷ 82 ∷ 79 ∷ 88 ∷ 89 ∷ 32 ∷ rest) ≡ parse_v1 (80 ∷ 82 ∷ 79 ∷ 88 ∷ 89 ∷ 32 ∷ rest)
unfolding parse parse_text
parse-text c rest = rw (le→ltb (length (80 ∷ 82 ∷ 79 ∷ 88 ∷ 89 ∷ 32 ∷ rest)) 6 (omega arith))

-- A line that is built and parsed
abbrev IsReadBack : Crc32c → Outcome (List ℕ) ⊥ → ProxyInfo → List ℕ → Type 0
IsReadBack c built info more =
    (bytes : List ℕ) × (built ≡ ok bytes)
    × (length bytes ≤ 107)
    × (parse c (bytes ++ more) ≡ ok (info, length bytes))

read_back :
    (c : Crc32c) (rest more : List ℕ) (info : ProxyInfo)
    → All IsLineByte (80 ∷ 82 ∷ 79 ∷ 88 ∷ 89 ∷ 32 ∷ rest)
    → length (80 ∷ 82 ∷ 79 ∷ 88 ∷ 89 ∷ 32 ∷ rest) + 2 ≤ 107
    → parse_line (80 ∷ 82 ∷ 79 ∷ 88 ∷ 89 ∷ 32 ∷ rest) ≡ ok info
    → IsReadBack c (ok ((80 ∷ 82 ∷ 79 ∷ 88 ∷ 89 ∷ 32 ∷ rest) ++ crlf)) info more
read_back c rest more info all short e =
    let text = 80 ∷ 82 ∷ 79 ∷ 88 ∷ 89 ∷ 32 ∷ rest in
    let len : length (text ++ crlf) ≡ length text + 2 = length-append text crlf in
    (
      text ++ crlf,
      refl,
      omega arith,
      parse-text c ((rest ++ crlf) ++ more)
          ∙ (text_parsed text more info all short e ∙ ap (λ n. ok (info, n)) (sym len)),
    )

unknown_line : parse_line proxy_unknown ≡ ok unknown_info
unfolding parse_line is_unknown
unknown_line = refl

unknown-IsReadBack :
    (c : Crc32c) (more : List ℕ) → IsReadBack c (build_v1 none none none) unknown_info more
unfolding build_v1
unknown-IsReadBack c more =
    read_back c (85 ∷ 78 ∷ 75 ∷ 78 ∷ 79 ∷ 87 ∷ 78 ∷ []) more unknown_info
      (checked-IsLineByte proxy_unknown [] refl tt) (omega arith) unknown_line

built_text :
    (s d : SocketAddr) (t : Transport)
    → t.family ≡ inet_family s
    → build_v1 (some (inet s)) (some (inet d)) (some t) ≡ ok (line s d ++ crlf)
unfolding build_v1
built_text (sock4 s) d t e = rw e (ap ok (text_line-line (sock4 s) d))
built_text (sock6 s) d t e = rw e (ap ok (text_line-line (sock6 s) d))

-- What the parser gives for a header: the two addresses without their flow labels and scopes
abbrev pub info_read : Option ProxyAddress → Option ProxyAddress → ProxyInfo
info_read (some (inet s)) (some (inet d)) = line_info s d
info_read _ _ = unknown_info

endpoints-IsReadBack :
    (c : Crc32c) {t : Option Transport} {s d : Option ProxyAddress} (more : List ℕ)
    → TextEndpoints t s d
    → IsReadBack c (build_v1 s d t) (info_read s d) more
endpoints-IsReadBack c more nowhere = unknown-IsReadBack c more
endpoints-IsReadBack c more (between t s d f e hs hd) =
    subst (λ b. IsReadBack c b (line_info s d) more) (sym (built_text s d t f))
      (read_back c (word_of (is_ipv4 s) ++ (32 ∷ fields_of s d)) more (line_info s d)
        (line-IsLineByte s d hs hd) (line-length s d hs hd) (line_parsed s d e hs hd))

-- Every v1 header that the constructors and methods make, of two addresses of one family, IPv4 or
-- IPv6, or of none, is built: no panic, and a line of at most 107 bytes. `parse` accepts it whatever
-- follows. It gives back the two addresses and ports, without flow label and scope, as a TCP
-- connection of that family, or an unknown connection, and it consumes exactly the header. What the
-- methods added, TLVs, a checksum or another protocol, has no effect.
pub parse-build_v1 :
    (c : Crc32c) (h : HeaderBuilder) (more : List ℕ)
    → TextBuilt h
    → (bytes : List ℕ) × (build c h ≡ ok bytes)
      × (length bytes ≤ 107)
      × (parse c (bytes ++ more) ≡ ok (info_read h.source h.destination, length bytes))
unfolding build
parse-build_v1 c h more built =
    let text = TextBuilt-IsTextHeader built in
    let v = text.version in rw v (endpoints-IsReadBack c more text.endpoints)
