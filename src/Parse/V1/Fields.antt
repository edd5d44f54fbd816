-- ===== src/Parse/V1/Fields.antt =====
-- What a line that `parse_v1` of parse/v1.rs accepts says.
use proxy_protocol_rs.Prelude.{
  ℕ, suc, ◌≤◌, ◌≡◌, refl, sym, ap, ◌∙◌, subst, inl, inr, Bool, true, false, not, ◌==◌, ◌&&◌,
  Bool-cases, List, [], ◌∷◌, ◌++◌, append_assoc, length, take, drop, take-append-drop,
  take-append_le, some, Option-cases, ok, fail_if, ok_or, Option, none, OnSome, >>=-eq-ok, >>-eq-ok,
  ok-injective, min, arith,
}
use proxy_protocol_rs.Std.Net.{IpAddr, socket_addr, IsIp, IsPort}
use proxy_protocol_rs.Std.IpRanges.{parse_u16-IsPort, parse_ip-IsIp}
use proxy_protocol_rs.Std.IpText.{parse_ip, parse_u16}
use proxy_protocol_rs.Types.{Version, proxy, inet, AddressFamily, stream, ProxyInfo, tlvs_default}
use proxy_protocol_rs.Error.{ParseError, invalid, invalid_ip, invalid_port}
use proxy_protocol_rs.Parse.V1.{
  find_crlf, family_matches, family_of_str, parse_fields, parse_parts, is_unknown, splitn,
  unknown_info, parse_line,
}
use proxy_protocol_rs.Parse.V1.Total.{window}

abbrev pub fields_info : AddressFamily → IpAddr → ℕ → IpAddr → ℕ → ProxyInfo
fields_info f s sp d dp = record {
  version = Version.v1;
  command = proxy;
  transport = some (record { family = f; protocol = stream });
  source = some (inet (socket_addr s sp));
  destination = some (inet (socket_addr d dp));
  tlvs = tlvs_default;
}

-- Either the line says that the connection is unknown, or it names two addresses of one family,
-- with their ports.
pub data LineRead : ProxyInfo → Type 0 where
  unknown : LineRead unknown_info
  named :
      (f : AddressFamily) (s d : IpAddr) (sp dp : ℕ)
      → family_matches f s ≡ true
      → family_matches f d ≡ true
      → (IsIp s × IsIp d)
      → (IsPort sp × IsPort dp)
      → LineRead (fields_info f s sp d dp)

pub passed_if : (b : Bool) (e : ParseError) → fail_if (not b) e ≡ ok tt → b ≡ true
passed_if true e h = refl
passed_if false e h = cc

given :
    {A : Type 0} (P : A → Type 0) (o : Option A) (e : ParseError) {a : A}
    → ok_or o e ≡ ok a
    → OnSome P o
    → P a
given P none e h p = cc
given P (some b) e h p = subst P (ok-injective h) p

fields-LineRead :
    (f : AddressFamily) (si di sp dp : List ℕ) (info : ProxyInfo)
    → parse_fields f si di sp dp ≡ ok info
    → LineRead info
unfolding parse_fields
fields-LineRead f si di sp dp info h =
    let bad = λ (x : List ℕ). invalid (invalid_ip x) in
    let (s, es, h1) = >>=-eq-ok (ok_or (parse_ip si) (bad si)) _ h in
    let (d, ed, h2) = >>=-eq-ok (ok_or (parse_ip di) (bad di)) _ h1 in
    let (m1, h3) = >>-eq-ok (fail_if (not (family_matches f s)) (bad si)) _ h2 in
    let (m2, h4) = >>-eq-ok (fail_if (not (family_matches f d)) (bad di)) _ h3 in
    let (p, ep, h5) = >>=-eq-ok (ok_or (parse_u16 sp) (invalid (invalid_port sp))) _ h4 in
    let (q, eq, h6) = >>=-eq-ok (ok_or (parse_u16 dp) (invalid (invalid_port dp))) _ h5 in
    subst LineRead (ok-injective h6) (
      named f s d p q (passed_if _ _ m1) (passed_if _ _ m2)
        (
          given IsIp (parse_ip si) _ es (parse_ip-IsIp si),
          given IsIp (parse_ip di) _ ed (parse_ip-IsIp di),
        )
        (
          given IsPort (parse_u16 sp) _ ep (parse_u16-IsPort sp),
          given IsPort (parse_u16 dp) _ eq (parse_u16-IsPort dp),
        ))

parts-LineRead : (ps : List (List ℕ)) (info : ProxyInfo) → parse_parts ps ≡ ok info → LineRead info
unfolding parse_parts
parts-LineRead (a ∷ t ∷ si ∷ di ∷ sp ∷ dp ∷ []) info h =
    let (f, _, h1) = >>=-eq-ok (family_of_str t) _ h in fields-LineRead f si di sp dp info h1
parts-LineRead _ info h = cc

pub line-LineRead : (line : List ℕ) (info : ProxyInfo) → parse_line line ≡ ok info → LineRead info
unfolding parse_line
line-LineRead line info h = elim (Bool-cases (is_unknown line)) [
  | inl e ↦ subst LineRead (ok-injective (rw e at h)) unknown
  | inr e ↦ parts-LineRead (splitn 7 line) info (rw e at h)
]

pub LineRead-version : {info : ProxyInfo} → LineRead info → info.version ≡ Version.v1
LineRead-version unknown = refl
LineRead-version (named f s d sp dp a b ips ports) = refl

-- A line end that is found
find_crlf_split :
    (xs : List ℕ) {i : ℕ}
    → find_crlf xs ≡ some i
    → (rest : List ℕ) × (xs ≡ take i xs ++ (0x0d ∷ 0x0a ∷ rest))
unfolding find_crlf
find_crlf_split [] h = cc
find_crlf_split (a ∷ []) h = cc
find_crlf_split (a ∷ b ∷ xs) {i} h = elim (Bool-cases (a == 0x0d && b == 0x0a)) [
  | inl e ↦
      let z : i ≡ 0 = ground (arith, rw e at h) in
      let cr : a ≡ 0x0d = ground arith in let lf : b ≡ 0x0a = ground arith in (xs, rw (z, cr, lf))
  | inr e ↦ elim (Option-cases (find_crlf (b ∷ xs))) [
    | inl q ↦ absurd (ground (arith, rw (e, q) at h))
    | inr (j, q) ↦
        let s : i ≡ suc j = ground (arith, rw (e, q) at h) in
        let (rest, w) = find_crlf_split (b ∷ xs) q in (rest, rw s (ap (◌∷◌ a) w))
  ]
]

-- The line that was found, in the whole buffer
pub line_split :
    (buf : List ℕ) (i : ℕ)
    → find_crlf (window buf) ≡ some i
    → i ≤ length (window buf)
    → (rest : List ℕ) × (buf ≡ take i buf ++ (0x0d ∷ 0x0a ∷ rest))
line_split buf i h le =
    let (rest, w) = find_crlf_split (window buf) h in
    let m = min (length buf) 107 in
    let whole : window buf ++ drop m buf ≡ buf = take-append-drop m buf in
    let front : take i buf ≡ take i (window buf) =
      ap (take i) (sym whole) ∙ take-append_le (window buf) (drop m buf) i le in
    (
      rest ++ drop m buf,
      sym whole
          ∙ (ap (λ q. q ++ drop m buf) w
              ∙ (append_assoc (take i (window buf)) (0x0d ∷ 0x0a ∷ rest) (drop m buf)
                  ∙ ap (λ q. q ++ (0x0d ∷ 0x0a ∷ (rest ++ drop m buf))) (sym front))),
    )
