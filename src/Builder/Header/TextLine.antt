-- ===== src/Builder/Header/TextLine.antt =====
-- The line that `build` of builder.rs writes, as parse/v1.rs reads it.
use proxy_protocol_rs.Prelude.{
  ℕ, some, ◌+◌, ◌≤◌, ◌<◌, ◌≡◌, ◌≢◌, refl, Bool, true, false, leb, ltb, ◌&&◌, if◌then◌else◌, List,
  [], ◌∷◌, ◌++◌, length, length-append, All, All-append, ok, arith,
}
use proxy_protocol_rs.Std.Net.{SocketAddr, sock4, sock6, ip_of, port_of, is_ipv4, IsIp, IsPort}
use proxy_protocol_rs.Std.IpDisplay.{show_ip, show_dec}
use proxy_protocol_rs.Std.Decimal.{parse_u16-show_loop}
use proxy_protocol_rs.Std.Ipv6Text.{parse_ip-show_ip}
use proxy_protocol_rs.Std.IpGraphic.{IsGraphic, show_ip-IsShort, show_port-IsShort}
use proxy_protocol_rs.Types.{ProxyInfo}
use proxy_protocol_rs.Parse.V1.{parse_line}
use proxy_protocol_rs.Parse.V1.Splitting.{NoSpace, Joined}
use proxy_protocol_rs.Parse.V1.Grammar.{
  IsWord, word4, word6, OfFamily, ipv4_address, ipv6_address, named, parse_line-IsTextLine,
}
use proxy_protocol_rs.Std.IpText.{parse_u16}
use proxy_protocol_rs.Parse.V1.Fields.{fields_info}
use proxy_protocol_rs.Builder.Calls.{inet_family}

-- The fields of the line, from the first address on
abbrev pub fields : List ℕ → List ℕ → List ℕ → List ℕ → List ℕ
fields a b p q = a ++ (32 ∷ (b ++ (32 ∷ (p ++ (32 ∷ q)))))

-- "TCP4" or "TCP6"
abbrev pub word_of : Bool → List ℕ
word_of ipv4 = 84 ∷ 67 ∷ 80 ∷ (if ipv4 then 52 else 54) ∷ []

-- "PROXY ", the word and the fields
abbrev pub line_of : Bool → List ℕ → List ℕ
line_of ipv4 rest = 80 ∷ 82 ∷ 79 ∷ 88 ∷ 89 ∷ 32 ∷ (word_of ipv4 ++ (32 ∷ rest))

-- A byte of a field or of the line
abbrev pub IsLineByte : ℕ → Type 0
IsLineByte b = (32 ≤ b) × (b < 128)

plain-NotSpace : (xs : List ℕ) → All IsGraphic xs → All (λ b. b ≢ 32) xs
plain-NotSpace [] h = tt
plain-NotSpace (x ∷ xs) h = (λ e. omega arith, plain-NotSpace xs h.1)

plain-IsLineByte : (xs : List ℕ) → All IsGraphic xs → All IsLineByte xs
plain-IsLineByte [] h = tt
plain-IsLineByte (x ∷ xs) h = ((omega arith, omega arith), plain-IsLineByte xs h.1)

pub line-NoReturn : (xs : List ℕ) → All IsLineByte xs → All (λ b. b ≢ 13) xs
line-NoReturn [] h = tt
line-NoReturn (x ∷ xs) h = (λ e. omega arith, line-NoReturn xs h.1)

pub line-Ascii : (xs : List ℕ) → All IsLineByte xs → All (λ b. b < 128) xs
line-Ascii [] h = tt
line-Ascii (x ∷ xs) h = (h.0.1, line-Ascii xs h.1)

pub fields-IsLineByte :
    (a b p q : List ℕ)
    → All IsGraphic a
    → All IsGraphic b
    → All IsGraphic p
    → All IsGraphic q
    → All IsLineByte (fields a b p q)
fields-IsLineByte a b p q ha hb hp hq =
    let sp : IsLineByte 32 = (omega arith, omega arith) in
    All-append IsLineByte a _ (plain-IsLineByte a ha) (
      sp,
      All-append IsLineByte b _ (plain-IsLineByte b hb)
          (sp, All-append IsLineByte p _ (plain-IsLineByte p hp) (sp, plain-IsLineByte q hq)),
    )

abbrev are_line_bytes : List ℕ → Bool
are_line_bytes [] = true
are_line_bytes (b ∷ bs) = leb 32 b && (ltb b 128 && are_line_bytes bs)

-- Bytes that are checked one by one, in front of others
pub checked-IsLineByte :
    (xs ys : List ℕ) → are_line_bytes xs ≡ true → All IsLineByte ys → All IsLineByte (xs ++ ys)
checked-IsLineByte [] ys h k = k
checked-IsLineByte (x ∷ xs) ys h k =
    ((ground arith, ground arith), checked-IsLineByte xs ys (ground arith) k)

pub line_of-IsLineByte :
    (ipv4 : Bool) (xs : List ℕ) → All IsLineByte xs → All IsLineByte (line_of ipv4 xs)
line_of-IsLineByte true xs h = checked-IsLineByte (line_of true []) xs refl h
line_of-IsLineByte false xs h = checked-IsLineByte (line_of false []) xs refl h

-- A socket address that Rust's type allows
abbrev pub IsSocket : SocketAddr → Type 0
IsSocket s = IsIp (ip_of s) × IsPort (port_of s)

abbrev pub fields_of : SocketAddr → SocketAddr → List ℕ
fields_of s d =
    fields (show_ip (ip_of s)) (show_ip (ip_of d)) (show_dec (port_of s)) (show_dec (port_of d))

abbrev pub line : SocketAddr → SocketAddr → List ℕ
line s d = line_of (is_ipv4 s) (fields_of s d)

-- What the parser makes of it: no flow label and no scope
abbrev pub line_info : SocketAddr → SocketAddr → ProxyInfo
line_info s d = fields_info (inet_family s) (ip_of s) (port_of s) (ip_of d) (port_of d)

word-NoSpace : (ipv4 : Bool) → NoSpace (word_of ipv4)
word-NoSpace true =
    (λ e. omega arith, (λ e. omega arith, (λ e. omega arith, (λ e. omega arith, tt))))
word-NoSpace false =
    (λ e. omega arith, (λ e. omega arith, (λ e. omega arith, (λ e. omega arith, tt))))

-- The word and the four fields, each behind a space
line-Joined :
    (ipv4 : Bool) (a b p q : List ℕ)
    → All IsGraphic a
    → All IsGraphic b
    → All IsGraphic p
    → All IsGraphic q
    → Joined (word_of ipv4 ∷ a ∷ b ∷ p ∷ q ∷ []) (word_of ipv4 ++ (32 ∷ fields a b p q))
line-Joined ipv4 a b p q ha hb hp hq = (
  fields a b p q,
  refl,
  word-NoSpace ipv4,
  (
    b ++ (32 ∷ (p ++ (32 ∷ q))),
    refl,
    plain-NotSpace a ha,
    (
      p ++ (32 ∷ q),
      refl,
      plain-NotSpace b hb,
      (q, refl, plain-NotSpace p hp, (refl, plain-NotSpace q hq)),
    ),
  ),
)

family-IsWord :
    (s d : SocketAddr)
    → is_ipv4 s ≡ is_ipv4 d
    → IsWord (word_of (is_ipv4 s)) (inet_family s)
      × OfFamily (inet_family s) (ip_of s)
      × OfFamily (inet_family s) (ip_of d)
family-IsWord (sock4 s) (sock4 d) e = (word4, ipv4_address s.addr, ipv4_address d.addr)
family-IsWord (sock6 s) (sock6 d) e = (word6, ipv6_address s.addr6, ipv6_address d.addr6)
family-IsWord (sock4 s) (sock6 d) e = absurd (ground arith)
family-IsWord (sock6 s) (sock4 d) e = absurd (ground arith)

port_parsed : (n : ℕ) → IsPort n → parse_u16 (show_dec n) ≡ some n
unfolding show_dec
port_parsed n h = parse_u16-show_loop n h

pub line_parsed :
    (s d : SocketAddr)
    → is_ipv4 s ≡ is_ipv4 d
    → IsSocket s
    → IsSocket d
    → parse_line (line s d) ≡ ok (line_info s d)
line_parsed s d e (hs, ps) (hd, pd) =
    let (word, from, to) = family-IsWord s d e in
    (parse_line-IsTextLine (word_of (is_ipv4 s) ++ (32 ∷ fields_of s d)) (line_info s d)).1 (
      named _ _ _ _ (ip_of s) (ip_of d) (port_of s) (port_of d) word
        (line-Joined (is_ipv4 s) _ _ _ _ (show_ip-IsShort _ hs).0 (show_ip-IsShort _ hd).0
          (show_port-IsShort _ ps).0 (show_port-IsShort _ pd).0)
        (parse_ip-show_ip _ hs, parse_ip-show_ip _ hd) (from, to)
        (port_parsed _ ps, port_parsed _ pd))

pub line-IsLineByte : (s d : SocketAddr) → IsSocket s → IsSocket d → All IsLineByte (line s d)
line-IsLineByte s d (hs, ps) (hd, pd) = line_of-IsLineByte (is_ipv4 s) (fields_of s d) (
    fields-IsLineByte _ _ _ _ (show_ip-IsShort _ hs).0 (show_ip-IsShort _ hd).0
      (show_port-IsShort _ ps).0 (show_port-IsShort _ pd).0)

pub line-length : (s d : SocketAddr) → IsSocket s → IsSocket d → length (line s d) + 2 ≤ 107
line-length s d (hs, ps) (hd, pd) =
    let a = show_ip (ip_of s) in
    let b = show_ip (ip_of d) in
    let p = show_dec (port_of s) in
    let q = show_dec (port_of d) in
    omega (
      arith,
      length-append a (32 ∷ (b ++ (32 ∷ (p ++ (32 ∷ q))))),
      length-append b (32 ∷ (p ++ (32 ∷ q))),
      length-append p (32 ∷ q),
      (show_ip-IsShort _ hs).1,
      (show_ip-IsShort _ hd).1,
      (show_port-IsShort _ ps).1,
      (show_port-IsShort _ pd).1,
    )
