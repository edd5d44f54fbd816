-- ===== src/Parse/V1/Grammar.antt =====
-- The lines that parse/v1.rs accepts, behind "PROXY ".
use proxy_protocol_rs.Prelude.{
  ℕ, zero, suc, ◌≤◌, ◌≡◌, refl, sym, ap, ◌∙◌, subst, ◌↔◌, inl, inr, Bool, true, false, not, ◌==◌,
  ==_iff, ◌&&◌, ◌||◌, Bool-cases, if◌then◌else◌, Option, none, some, List, [], ◌∷◌, ◌++◌, length,
  drop, bytes_eq, bytes_eq→≡, starts_with, ok, >>=-eq-ok, >>-eq-ok, ok-injective, fail_if, ok_or,
  arith,
}
use proxy_protocol_rs.Std.Net.{Ipv4Addr, Ipv6Addr, IpAddr, v4, v6}
use proxy_protocol_rs.Std.IpText.{parse_ip, parse_u16}
use proxy_protocol_rs.Types.{AddressFamily, inet4, inet6, unix_family, ProxyInfo}
use proxy_protocol_rs.Error.{ParseError, invalid, invalid_ip, invalid_port}
use proxy_protocol_rs.Parse.V1.{
  tcp4, tcp6, is_unknown, unknown_info, split_space, splitn, family_of_str, family_matches,
  parse_fields, parse_parts, parse_line,
}
use proxy_protocol_rs.Parse.V1.Fields.{fields_info, passed_if}
use proxy_protocol_rs.Parse.V1.Line.{splitn-field, splitn-last}
use proxy_protocol_rs.Parse.V1.Splitting.{Joined, splitn-Joined}

-- "UNKNOWN"
abbrev pub unknown_word : List ℕ
unknown_word = 85 ∷ 78 ∷ 75 ∷ 78 ∷ 79 ∷ 87 ∷ 78 ∷ []

-- "TCP4" or "TCP6", and the family that it names
pub data IsWord : List ℕ → AddressFamily → Type 0 where
  word4 : IsWord (84 ∷ 67 ∷ 80 ∷ 52 ∷ []) inet4
  word6 : IsWord (84 ∷ 67 ∷ 80 ∷ 54 ∷ []) inet6

-- An address of a family
pub data OfFamily : AddressFamily → IpAddr → Type 0 where
  ipv4_address : (a : Ipv4Addr) → OfFamily inet4 (v4 a)
  ipv6_address : (a : Ipv6Addr) → OfFamily inet6 (v6 a)

pub family_matches-OfFamily :
    (f : AddressFamily) (ip : IpAddr) → family_matches f ip ≡ true → OfFamily f ip
family_matches-OfFamily inet4 (v4 a) h = ipv4_address a
family_matches-OfFamily inet6 (v6 a) h = ipv6_address a
family_matches-OfFamily inet4 (v6 a) h = cc
family_matches-OfFamily inet6 (v4 a) h = cc
family_matches-OfFamily unix_family (v4 a) h = cc
family_matches-OfFamily unix_family (v6 a) h = cc

pub OfFamily-family_matches :
    (f : AddressFamily) (ip : IpAddr) → OfFamily f ip → family_matches f ip ≡ true
OfFamily-family_matches _ _ (ipv4_address a) = refl
OfFamily-family_matches _ _ (ipv6_address a) = refl

-- The text behind "PROXY ": the word UNKNOWN, alone or with any text behind a space, or a word for
-- the family, two addresses of that family and two ports, each behind one space and without one.
pub data IsTextLine : List ℕ → ProxyInfo → Type 0 where
  unknown : IsTextLine unknown_word unknown_info
  unknown_and : (r : List ℕ) → IsTextLine (unknown_word ++ (32 ∷ r)) unknown_info
  named :
      {word : List ℕ} {f : AddressFamily} {text : List ℕ} (a b p q : List ℕ) (s d : IpAddr)
      (sp dp : ℕ)
      → IsWord word f
      → Joined (word ∷ a ∷ b ∷ p ∷ q ∷ []) text
      → (parse_ip a ≡ some s) × (parse_ip b ≡ some d)
      → OfFamily f s × OfFamily f d
      → (parse_u16 p ≡ some sp) × (parse_u16 q ≡ some dp)
      → IsTextLine text (fields_info f s sp d dp)

-- Forwards: parts that are joined are split again.
pub Joined-splitn :
    (ps : List (List ℕ)) (n : ℕ) (bs : List ℕ)
    → Joined ps bs
    → length ps ≤ n
    → splitn (suc n) bs ≡ ps
Joined-splitn [] n bs j h = absurd j
Joined-splitn (x ∷ ps) zero bs j h = absurd (omega arith)
Joined-splitn (x ∷ []) (suc n) bs (e, k) h = ap (splitn (suc (suc n))) e ∙ splitn-last n x k
Joined-splitn (x ∷ y ∷ ys) (suc n) bs (r, e, k, j) h =
    ap (splitn (suc (suc n))) e
    ∙ (splitn-field n x r k ∙ ap (◌∷◌ x) (Joined-splitn (y ∷ ys) n r j (omega arith)))

-- "PROXY ", and the rest of the line
abbrev pub prefixed : List ℕ → List ℕ
prefixed rest = 80 ∷ 82 ∷ 79 ∷ 88 ∷ 89 ∷ 32 ∷ rest

abbrev proxy_word : List ℕ
proxy_word = 80 ∷ 82 ∷ 79 ∷ 88 ∷ 89 ∷ []

prefixed_split : (rest : List ℕ) → splitn 7 (prefixed rest) ≡ proxy_word ∷ splitn 6 rest
unfolding splitn split_space
prefixed_split rest = refl

-- Whether the rest begins with the word UNKNOWN, with nothing or a space behind it
abbrev begins_unknown : List ℕ → Bool
begins_unknown rest =
    starts_with rest unknown_word
    && (bytes_eq (drop 7 rest) [] || starts_with (drop 7 rest) (32 ∷ []))

line_lem :
    (rest : List ℕ)
    → parse_line (prefixed rest)
      ≡ (if begins_unknown rest then ok unknown_info else parse_parts (proxy_word ∷ splitn 6 rest))
unfolding parse_line is_unknown
line_lem rest =
    ap (λ ps. if begins_unknown rest then ok unknown_info else parse_parts ps) (prefixed_split rest)

starts_with_split : (xs p : List ℕ) → starts_with xs p ≡ true → xs ≡ p ++ drop (length p) xs
starts_with_split xs [] h = refl
starts_with_split [] (b ∷ bs) h = cc
starts_with_split (a ∷ xs) (b ∷ bs) h = elim (Bool-cases (a == b)) [
  | inl e ↦
      let same = (==_iff a b).0 e in
      ap (λ k. k ∷ xs) same ∙ ap (◌∷◌ b) (starts_with_split xs bs (rw e at h))
  | inr e ↦ absurd (ground (arith, rw e at h))
]

behind_unknown :
    (r : List ℕ)
    → (bytes_eq r [] || starts_with r (32 ∷ [])) ≡ true
    → IsTextLine (unknown_word ++ r) unknown_info
behind_unknown [] h = unknown
behind_unknown (b ∷ bs) h = elim (Bool-cases (b == 32)) [
  | inl e ↦
      subst (λ k. IsTextLine (unknown_word ++ (k ∷ bs)) unknown_info) (sym ((==_iff b 32).0 e))
        (unknown_and bs)
  | inr e ↦ absurd (ground (arith, rw e at h))
]

begins-IsTextLine : (rest : List ℕ) → begins_unknown rest ≡ true → IsTextLine rest unknown_info
begins-IsTextLine rest h = elim (Bool-cases (starts_with rest unknown_word)) [
  | inl e ↦
      subst (λ t. IsTextLine t unknown_info) (sym (starts_with_split rest unknown_word e))
        (behind_unknown (drop 7 rest) (rw e at h))
  | inr e ↦ absurd (ground (arith, rw e at h))
]

pub family-IsWord : (t : List ℕ) (f : AddressFamily) → family_of_str t ≡ ok f → IsWord t f
unfolding family_of_str
family-IsWord t f h = elim (Bool-cases (bytes_eq t tcp4)) [
  | inl e ↦
      let same : inet4 ≡ f = ok-injective (rw e at h) in
      subst (IsWord t) same (subst (λ w. IsWord w inet4) (sym (bytes_eq→≡ t tcp4 e)) word4)
  | inr e ↦ elim (Bool-cases (bytes_eq t tcp6)) [
    | inl g ↦
        let same : inet6 ≡ f = ok-injective (rw (e, g) at h) in
        subst (IsWord t) same (subst (λ w. IsWord w inet6) (sym (bytes_eq→≡ t tcp6 g)) word6)
    | inr g ↦ absurd (ground (arith, rw (e, g) at h))
  ]
]

pub read_ok : {A : Type 0} (o : Option A) (e : ParseError) {a : A} → ok_or o e ≡ ok a → o ≡ some a
read_ok none e h = cc
read_ok (some b) e h = ap some (ok-injective h)

fields-IsTextLine :
    (word : List ℕ) (f : AddressFamily) (text a b p q : List ℕ) (info : ProxyInfo)
    → IsWord word f
    → Joined (word ∷ a ∷ b ∷ p ∷ q ∷ []) text
    → parse_fields f a b p q ≡ ok info
    → IsTextLine text info
unfolding parse_fields
fields-IsTextLine word f text a b p q info w j h =
    let bad = λ (x : List ℕ). invalid (invalid_ip x) in
    let (s, es, h1) = >>=-eq-ok (ok_or (parse_ip a) (bad a)) _ h in
    let (d, ed, h2) = >>=-eq-ok (ok_or (parse_ip b) (bad b)) _ h1 in
    let (m1, h3) = >>-eq-ok (fail_if (not (family_matches f s)) (bad a)) _ h2 in
    let (m2, h4) = >>-eq-ok (fail_if (not (family_matches f d)) (bad b)) _ h3 in
    let (sp, ep, h5) = >>=-eq-ok (ok_or (parse_u16 p) (invalid (invalid_port p))) _ h4 in
    let (dp, eq, h6) = >>=-eq-ok (ok_or (parse_u16 q) (invalid (invalid_port q))) _ h5 in
    subst (IsTextLine text) (ok-injective h6) (
      named a b p q s d sp dp w j (read_ok (parse_ip a) _ es, read_ok (parse_ip b) _ ed)
        (
          family_matches-OfFamily f s (passed_if _ _ m1),
          family_matches-OfFamily f d (passed_if _ _ m2),
        )
        (read_ok (parse_u16 p) _ ep, read_ok (parse_u16 q) _ eq))

parts-IsTextLine :
    (ps : List (List ℕ)) (text : List ℕ) (info : ProxyInfo)
    → (length ps ≤ 5 → Joined ps text)
    → parse_parts (proxy_word ∷ ps) ≡ ok info
    → IsTextLine text info
unfolding parse_parts
parts-IsTextLine (t ∷ a ∷ b ∷ p ∷ q ∷ []) text info j h =
    let (f, e, h1) = >>=-eq-ok (family_of_str t) _ h in
    fields-IsTextLine t f text a b p q info (family-IsWord t f e) (j (omega arith)) h1
parts-IsTextLine _ text info j h = cc

line-IsTextLine :
    (rest : List ℕ) (info : ProxyInfo) → parse_line (prefixed rest) ≡ ok info → IsTextLine rest info
line-IsTextLine rest info h =
    let step = sym (line_lem rest) ∙ h in
    elim (Bool-cases (begins_unknown rest)) [
      | inl e ↦
          let same : unknown_info ≡ info = ok-injective (rw e at step) in
          subst (IsTextLine rest) same (begins-IsTextLine rest e)
      | inr e ↦ parts-IsTextLine (splitn 6 rest) rest info (splitn-Joined 5 rest) (rw e at step)
    ]

fields_read :
    (f : AddressFamily) (a b p q : List ℕ) (s d : IpAddr) (sp dp : ℕ)
    → (parse_ip a ≡ some s) × (parse_ip b ≡ some d)
    → OfFamily f s × OfFamily f d
    → (parse_u16 p ≡ some sp) × (parse_u16 q ≡ some dp)
    → parse_fields f a b p q ≡ ok (fields_info f s sp d dp)
unfolding parse_fields
fields_read f a b p q s d sp dp (ea, eb) (ms, md) (ep, eq) =
    rw (ea, eb) (rw (OfFamily-family_matches f s ms, OfFamily-family_matches f d md) (rw (ep, eq)))

named_parts :
    (word : List ℕ) (f : AddressFamily) (a b p q : List ℕ)
    → IsWord word f
    → parse_parts (proxy_word ∷ word ∷ a ∷ b ∷ p ∷ q ∷ []) ≡ parse_fields f a b p q
unfolding parse_parts family_of_str
named_parts _ _ a b p q word4 = refl
named_parts _ _ a b p q word6 = refl

no_unknown :
    (word : List ℕ) (f : AddressFamily) (text : List ℕ) (ps : List (List ℕ)) (a : List ℕ)
    → IsWord word f
    → Joined (word ∷ a ∷ ps) text
    → begins_unknown text ≡ false
no_unknown _ _ text ps a word4 (r, e, k, j) = rw e
no_unknown _ _ text ps a word6 (r, e, k, j) = rw e

-- Behind "PROXY ", `parse_line` accepts exactly these lines, and gives what they say: the word
-- UNKNOWN, alone or with any text behind a space, or TCP4 with two IPv4 addresses or TCP6 with two
-- IPv6 addresses, and two ports, each behind exactly one space and without one, and nothing behind
-- the last one. An address is a text that Rust's `IpAddr::from_str` reads, and a port one that its
-- `u16::from_str` reads, so also one with a leading plus sign or leading zeros.
pub parse_line-IsTextLine :
    (rest : List ℕ) (info : ProxyInfo)
    → (parse_line (80 ∷ 82 ∷ 79 ∷ 88 ∷ 89 ∷ 32 ∷ rest) ≡ ok info) ↔ IsTextLine rest info
unfolding parse_line is_unknown
parse_line-IsTextLine rest info = (line-IsTextLine rest info, back rest info)
  where
    back : (text : List ℕ) (i : ProxyInfo) → IsTextLine text i → parse_line (prefixed text) ≡ ok i
    back _ _ unknown = line_lem unknown_word
    back _ _ (unknown_and r) = line_lem (unknown_word ++ (32 ∷ r))
    back text _ (named {word} {f} a b p q s d sp dp w j ips fam ports) =
        line_lem text
        ∙ rw (
          no_unknown word f text (b ∷ p ∷ q ∷ []) a w j,
          Joined-splitn (word ∷ a ∷ b ∷ p ∷ q ∷ []) 5 text j (omega arith),
          named_parts word f a b p q w,
          fields_read f a b p q s d sp dp ips fam ports,
        )
