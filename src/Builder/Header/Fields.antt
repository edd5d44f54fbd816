-- ===== src/Builder/Header/Fields.antt =====
-- The bytes of two addresses, as `encode_addresses` of builder.rs writes them, and `parse_inet`,
-- `parse_inet6` and `parse_unix` on them.
use proxy_protocol_rs.Prelude.{
  ℕ, zero, suc, ◌+◌, ◌-◌, ◌/◌, ◌%◌, ◌≤◌, ◌≡◌, ◌≢◌, refl, sym, ap, ◌∙◌, List, [], ◌∷◌, ◌++◌,
  append_assoc, length, replicate, min, All, length-append, length-replicate, drop-replicate,
  take-append, drop-append, take_all, slice_lem, index-append, to_be16, be16, le→leb, le→ltb, some,
  ok, arith,
}
use proxy_protocol_rs.Std.Net.{v4, v6, socket_addr, IsPort}
use proxy_protocol_rs.Types.{inet, unix, Transport}
use proxy_protocol_rs.Error.{ParseError}
use proxy_protocol_rs.Parse.V2.{extract_unix_path, parse_inet, parse_inet6, parse_unix}
use proxy_protocol_rs.Parse.V2.Inside.{ipv6_of_lem}
use proxy_protocol_rs.Builder.Header.{unix_field}

-- A path without a zero byte that fits the field.
abbrev pub IsUnixPath : List ℕ → Type 0
IsUnixPath p = (length p ≤ 108) × All (λ b. b ≢ 0) p

pub inet_bytes-read :
    (t : Transport) (s d : List ℕ) (p q : ℕ) (rest : List ℕ)
    → length s ≡ 4
    → length d ≡ 4
    → IsPort p
    → IsPort q
    → parse_inet t ((s ++ (d ++ (to_be16 p ++ to_be16 q))) ++ rest)
      ≡ ok (record {
        transport = some t;
        source = some (inet (socket_addr (v4 (record { octets = s })) p));
        destination = some (inet (socket_addr (v4 (record { octets = d })) q));
        tlv_offset = 12;
      })
unfolding parse_inet
inet_bytes-read t (a ∷ b ∷ c ∷ e ∷ []) (a' ∷ b' ∷ c' ∷ e' ∷ []) p q rest hs hd hp hq =
    let long =
      le→ltb
        (length (((a ∷ b ∷ c ∷ e ∷ a' ∷ b' ∷ c' ∷ e' ∷ []) ++ (to_be16 p ++ to_be16 q)) ++ rest)) 12
        (omega arith) in
    let pp : be16 (p / 256 % 256) (p % 256) ≡ p = omega arith in
    let qq : be16 (q / 256 % 256) (q % 256) ≡ q = omega arith in rw (long, pp, qq)
inet_bytes-read t _ _ p q rest hs hd hp hq = absurd (omega arith)

pub inet6_bytes-read :
    (t : Transport) (s d : List ℕ) (p q : ℕ) (rest : List ℕ)
    → length s ≡ 16
    → length d ≡ 16
    → IsPort p
    → IsPort q
    → parse_inet6 t ((s ++ (d ++ (to_be16 p ++ to_be16 q))) ++ rest)
      ≡ ok (record {
        transport = some t;
        source = some (inet (socket_addr (v6 (record { octets = s })) p));
        destination = some (inet (socket_addr (v6 (record { octets = d })) q));
        tlv_offset = 36;
      })
unfolding parse_inet6
inet6_bytes-read t s d p q rest hs hd hp hq =
    let ports = (p / 256 % 256) ∷ (p % 256) ∷ (q / 256 % 256) ∷ (q % 256) ∷ [] in
    let tail = ports ++ rest in
    let xs = s ++ (d ++ tail) in
    let whole : (s ++ (d ++ ports)) ++ rest ≡ xs =
      append_assoc s (d ++ ports) rest ∙ ap (λ r. s ++ r) (append_assoc d ports rest) in
    let len : length xs ≡ 36 + length rest =
      omega (arith, length-append s (d ++ tail), length-append d tail) in
    let at = λ (i : ℕ). index-append {E = ParseError} s (d ++ tail) (16 + i) (32 + i) in
    let at' = λ (i : ℕ). index-append {E = ParseError} d tail i (16 + i) in
    let pp : be16 (p / 256 % 256) (p % 256) ≡ p = omega arith in
    let qq : be16 (q / 256 % 256) (q % 256) ≡ q = omega arith in
    rw (
      whole,
      le→ltb (length xs) 36 (omega arith),
      slice_lem {E = ParseError} xs 0 16 (omega arith) (omega arith),
      take-append s (d ++ tail) 16 (sym hs),
      ipv6_of_lem s hs,
      slice_lem {E = ParseError} xs 16 32 (omega arith) (omega arith),
      drop-append s (d ++ tail) 16 (sym hs),
      take-append d tail 16 (sym hd),
      ipv6_of_lem d hd,
      at 0 (omega arith) ∙ at' 0 (omega arith),
      at 1 (omega arith) ∙ at' 1 (omega arith),
      at 2 (omega arith) ∙ at' 2 (omega arith),
      at 3 (omega arith) ∙ at' 3 (omega arith),
      pp,
      qq,
    )

extract-path :
    (path : List ℕ) (n : ℕ)
    → All (λ b. b ≢ 0) path
    → extract_unix_path (path ++ replicate n 0) ≡ path
unfolding extract_unix_path
extract-path [] zero h = refl
extract-path [] (suc n) h = refl
extract-path (b ∷ bs) n h = ground (arith, extract-path bs n h.1)

-- The field of a path that fits: the path, padded with zeroes to 108 bytes
abbrev pub padded : List ℕ → List ℕ
padded path = path ++ replicate (108 - length path) 0

pub unix_field-padded : (path : List ℕ) → length path ≤ 108 → unix_field path ≡ ok (padded path)
unfolding unix_field
unix_field-padded path h =
    let n : min (length path) 108 ≡ length path = omega arith in
    let z : 0 + length path ≡ length path = omega arith in
    rw (
      n,
      take_all path (length path) (omega arith),
      z,
      le→leb (length path) 108 h,
      drop-replicate {A = ℕ} (length path) 108 0,
    )

pub length-padded : (path : List ℕ) → length path ≤ 108 → length (padded path) ≡ 108
length-padded path h = omega (
  arith,
  length-append path (replicate {A = ℕ} (108 - length path) 0),
  length-replicate {A = ℕ} (108 - length path) 0,
)

pub unix_bytes-read :
    (t : Transport) (s d rest : List ℕ)
    → IsUnixPath s
    → IsUnixPath d
    → parse_unix t ((padded s ++ padded d) ++ rest)
      ≡ ok (record {
        transport = some t;
        source = some (unix s);
        destination = some (unix d);
        tlv_offset = 216;
      })
unfolding parse_unix
unix_bytes-read t s d rest hs hd =
    let f1 = padded s in
    let f2 = padded d in
    let l1 = length-padded s hs.0 in
    let l2 = length-padded d hd.0 in
    let xs = f1 ++ (f2 ++ rest) in
    let len : length xs ≡ 216 + length rest =
      omega (arith, length-append f1 (f2 ++ rest), length-append f2 rest) in
    rw (
      append_assoc f1 f2 rest,
      le→ltb (length xs) 216 (omega arith),
      slice_lem {E = ParseError} xs 0 108 (omega arith) (omega arith),
      take-append f1 (f2 ++ rest) 108 (sym l1),
      slice_lem {E = ParseError} xs 108 216 (omega arith) (omega arith),
      drop-append f1 (f2 ++ rest) 108 (sym l1),
      take-append f2 rest 108 (sym l2),
      extract-path s (108 - length s) hs.1,
      extract-path d (108 - length d) hd.1,
    )

pub length-inet_bytes :
    (s d : List ℕ) (p q : ℕ)
    → length (s ++ (d ++ (to_be16 p ++ to_be16 q))) ≡ length s + length d + 4
length-inet_bytes s d p q = omega (
  arith,
  length-append s (d ++ (to_be16 p ++ to_be16 q)),
  length-append d (to_be16 p ++ to_be16 q),
)
