-- ===== src/Std/Ipv6Groups.antt =====
-- `read_groups` on the groups of an IPv6 address as text.
use proxy_protocol_rs.Prelude.{
  ℕ, zero, suc, ◌≤◌, ◌≡◌, refl, ap, ◌∙◌, Bool, true, false, ltb, lt→ltb, if◌then◌else◌, Option,
  none, some, and_then, List, [], ◌∷◌, ◌++◌, append_assoc, length, All, arith,
}
use proxy_protocol_rs.Std.Net.{Ipv4Addr, IsPort}
use proxy_protocol_rs.Std.IpText.{
  read_separator, to_digit, read_digits, read_number, read_ipv4, groups_of, Groups, add_group,
  read_groups,
}
use proxy_protocol_rs.Std.IpDisplay.{show_hex, show_segments}
use proxy_protocol_rs.Std.HexGroup.{
  EndsGroup, at_end, at_colon, read_number-show_hex, read_ipv4-show_hex, no_ipv4,
}

-- One round of `read_groups`, by what the two readers give
abbrev round : ℕ → ℕ → List ℕ → Option (Ipv4Addr × List ℕ) → Option (ℕ × List ℕ) → Groups
round n i bytes embedded group = elim embedded as (λ k. Groups) [
  | some (a, rest) ↦ record { groups = groups_of a.octets; has_ipv4 = true; rest = rest }
  | none ↦ elim group as (λ k. Groups) [
    | some (g, rest) ↦ add_group g (read_groups n (suc i) rest)
    | none ↦ record { groups = []; has_ipv4 = false; rest = bytes }
  ]
]

if_none : {A : Type 0} (b : Bool) (o : Option A) → o ≡ none → (if b then o else none) ≡ none
if_none true o h = h
if_none false o h = refl

no_embedded :
    (n i : ℕ) (bytes after : List ℕ)
    → read_separator 58 i bytes ≡ some after
    → read_ipv4 after ≡ none
    → read_groups (suc n) i bytes ≡ round n i bytes none (read_number 16 4 true 65536 after)
unfolding read_groups
no_embedded n i bytes after s e =
    ap (λ o. round n i bytes o (and_then (read_separator 58 i bytes) (read_number 16 4 true 65536)))
      (if_none (ltb 0 n) (and_then (read_separator 58 i bytes) read_ipv4)
        (ap (λ o. and_then o read_ipv4) s ∙ e))
    ∙ ap (λ o. round n i bytes none (and_then o (read_number 16 4 true 65536))) s

-- A group, behind its separator
pub group_step :
    (n i g : ℕ) (bytes r : List ℕ)
    → read_separator 58 i bytes ≡ some (show_hex g ++ r)
    → IsPort g
    → EndsGroup r
    → read_groups (suc n) i bytes ≡ add_group g (read_groups n (suc i) r)
group_step n i g bytes r s h end =
    no_embedded n i bytes (show_hex g ++ r) s (read_ipv4-show_hex g r end)
    ∙ ap (round n i bytes none) (read_number-show_hex g r h end)

-- An IPv4 address at the end, behind its separator
pub embedded_step :
    (n i : ℕ) (a : Ipv4Addr) (bytes after r : List ℕ)
    → read_separator 58 i bytes ≡ some after
    → read_ipv4 after ≡ some (a, r)
    → read_groups (suc (suc n)) i bytes
      ≡ record { groups = groups_of a.octets; has_ipv4 = true; rest = r }
unfolding read_groups
embedded_step n i a bytes after r s e =
    let more : ltb 0 (suc n) ≡ true = lt→ltb 0 (suc n) (omega arith) in
    ap
      (λ o.
        round (suc n) i bytes o
          (and_then (read_separator 58 i bytes) (read_number 16 4 true 65536)))
      (ap (λ b. if b then and_then (read_separator 58 i bytes) read_ipv4 else none) more
        ∙ (ap (λ o. and_then o read_ipv4) s ∙ e))

-- What stands behind the groups: nothing, or the two colons.
pub data EndsGroups : List ℕ → Type 0 where
  nothing : EndsGroups []
  colons : (r : List ℕ) → EndsGroups (58 ∷ 58 ∷ r)

ends_group : (r : List ℕ) → EndsGroups r → EndsGroup r
ends_group _ nothing = at_end
ends_group _ (colons r) = at_colon (58 ∷ r)

number_none : (r : List ℕ) → EndsGroup r → read_number 16 4 true 65536 r ≡ none
unfolding read_number read_digits to_digit
number_none _ at_end = refl
number_none _ (at_colon r) = refl

-- The groups, and what is left
abbrev pub groups_and : List ℕ → List ℕ → Groups
groups_and gs r = record { groups = gs; has_ipv4 = false; rest = r }

-- No group behind the separator
stop :
    (n i : ℕ) (bytes r : List ℕ)
    → read_separator 58 i bytes ≡ some r
    → EndsGroup r
    → read_groups (suc n) i bytes ≡ groups_and [] bytes
stop n i bytes r s end =
    no_embedded n i bytes r s (no_ipv4 [] r tt end) ∙ ap (round n i bytes none) (number_none r end)

end_of_text : (n i : ℕ) → read_groups n (suc i) [] ≡ groups_and [] []
unfolding read_groups
end_of_text zero i = refl
end_of_text (suc n) i = ap (λ o. round n (suc i) [] o none) (if_none (ltb 0 n) none refl)

-- Groups that each have a colon in front
abbrev following : List ℕ → List ℕ → List ℕ
following [] r = r
following (g ∷ gs) r = 58 ∷ (show_hex g ++ following gs r)

following-EndsGroup : (gs r : List ℕ) → EndsGroups r → EndsGroup (following gs r)
following-EndsGroup [] r end = ends_group r end
following-EndsGroup (g ∷ gs) r end = at_colon _

following_read :
    (gs : List ℕ) (n i : ℕ) (r : List ℕ)
    → length gs ≤ n
    → All IsPort gs
    → EndsGroups r
    → read_groups n (suc i) (following gs r) ≡ groups_and gs r
unfolding read_groups
following_read [] n i _ le h nothing = end_of_text n i
following_read [] zero i _ le h (colons r) = refl
following_read [] (suc n) i _ le h (colons r) =
    stop n (suc i) (58 ∷ 58 ∷ r) (58 ∷ r) refl (at_colon r)
following_read (g ∷ gs) zero i r le h end = absurd (omega arith)
following_read (g ∷ gs) (suc n) i r le h end =
    group_step n (suc i) g (58 ∷ (show_hex g ++ following gs r)) (following gs r) refl h.0
      (following-EndsGroup gs r end)
    ∙ ap (add_group g) (following_read gs n (suc i) r (omega arith) h.1 end)

show_segments-following :
    (g : ℕ) (gs r : List ℕ) → show_segments (g ∷ gs) ++ r ≡ show_hex g ++ following gs r
show_segments-following g [] r = refl
show_segments-following g (f ∷ gs) r =
    append_assoc (show_hex g) (58 ∷ show_segments (f ∷ gs)) r
    ∙ ap (λ t. show_hex g ++ (58 ∷ t)) (show_segments-following f gs r)

-- Groups as text are read back, up to what stands behind them.
pub read_groups-show_segments :
    (gs : List ℕ) (n : ℕ) (r : List ℕ)
    → length gs ≤ n
    → All IsPort gs
    → EndsGroups r
    → read_groups n 0 (show_segments gs ++ r) ≡ groups_and gs r
unfolding read_groups
read_groups-show_segments [] zero r le h end = refl
read_groups-show_segments [] (suc n) r le h end = stop n 0 r r refl (ends_group r end)
read_groups-show_segments (g ∷ gs) zero r le h end = absurd (omega arith)
read_groups-show_segments (g ∷ gs) (suc n) r le h end =
    ap (read_groups (suc n) 0) (show_segments-following g gs r)
    ∙ (group_step n 0 g (show_hex g ++ following gs r) (following gs r) refl h.0
          (following-EndsGroup gs r end)
        ∙ ap (add_group g) (following_read gs n 0 r (omega arith) h.1 end))

-- Nor is the text of groups an IPv4 address.
pub read_ipv4-show_segments :
    (gs r : List ℕ) → EndsGroups r → read_ipv4 (show_segments gs ++ r) ≡ none
read_ipv4-show_segments [] r end = no_ipv4 [] r tt (ends_group r end)
read_ipv4-show_segments (g ∷ gs) r end =
    ap read_ipv4 (show_segments-following g gs r)
    ∙ read_ipv4-show_hex g (following gs r) (following-EndsGroup gs r end)
