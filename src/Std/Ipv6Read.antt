-- ===== src/Std/Ipv6Read.antt =====
-- `read_ipv6_addr` on the groups that `Display` writes, with a run of zeros left out or without.
use proxy_protocol_rs.Prelude.{
  ℕ, ◌+◌, ◌-◌, ◌≤◌, ◌<◌, ◌≡◌, sym, ap, ◌∙◌, inl, inr, false, ◌==◌, ==_iff, ltb, ltb→lt, Bool-cases,
  if◌then◌else◌, Option, none, some, List, [], ◌∷◌, ◌++◌, append-nil, length, length-append,
  replicate, length-replicate, take, drop, All, All-take, All-drop, arith,
}
use proxy_protocol_rs.Std.Net.{Ipv6Addr, IsPort}
use proxy_protocol_rs.Std.IpText.{read_ipv4, Groups, read_groups, ipv6_from, read_tail, read_ipv6}
use proxy_protocol_rs.Std.IpDisplay.{Span, longest_zeros, show_segments, show_groups}
use proxy_protocol_rs.Std.Ipv6Groups.{
  groups_and, nothing, colons, read_groups-show_segments, read_ipv4-show_segments,
}
use proxy_protocol_rs.Std.ZeroRuns.{no_run, longest_zeros-IsRun, run_split}

abbrev after_head : Groups → Option (Ipv6Addr × List ℕ)
after_head head =
    if length head.groups == 8
    then some (ipv6_from head.groups, head.rest)
    else if head.has_ipv4
    then none
    else read_tail head.groups head.rest

abbrev pub tail_result : List ℕ → Groups → Option (Ipv6Addr × List ℕ)
tail_result head tail = some (
  ipv6_from (head ++ (replicate (8 - length head - length tail.groups) 0 ++ tail.groups)),
  tail.rest,
)

-- Eight groups in front
whole_read :
    (bytes gs r : List ℕ)
    → read_groups 8 0 bytes ≡ groups_and gs r
    → length gs ≡ 8
    → read_ipv6 bytes ≡ some (ipv6_from gs, r)
unfolding read_ipv6
whole_read bytes gs r e h = ap after_head e ∙ rw ((==_iff (length gs) 8).1 h)

fewer : (n : ℕ) → n ≤ 7 → (n == 8) ≡ false
fewer n h = ground arith

-- Fewer groups, two colons, and the rest
pub tail_read :
    (bytes front r : List ℕ) (tail : Groups)
    → read_groups 8 0 bytes ≡ groups_and front (58 ∷ 58 ∷ r)
    → length front ≤ 7
    → read_groups (8 - (length front + 1)) 0 r ≡ tail
    → read_ipv6 bytes ≡ tail_result front tail
unfolding read_ipv6 read_tail
tail_read bytes front r tail e le t =
    ap after_head e ∙ (rw (fewer (length front) le) (ap (tail_result front) t))

-- An address with a run of zeros left out
compressed_read :
    (gs : List ℕ)
    → length gs ≡ 8
    → All IsPort gs
    → (s : Span) → 1 < s.len
    → (gs ≡ take s.start gs ++ (replicate s.len 0 ++ drop (s.start + s.len) gs))
    → read_ipv6
        (show_segments (take s.start gs) ++ (58 ∷ 58 ∷ show_segments (drop (s.start + s.len) gs)))
      ≡ some (ipv6_from gs, [])
compressed_read gs e h s lt split =
    let front = take s.start gs in
    let back = drop (s.start + s.len) gs in
    let zeros = replicate {A = ℕ} s.len 0 in
    let total : 8 ≡ length front + (s.len + length back) = omega (
      arith,
      ap length split,
      length-append front (zeros ++ back),
      length-append zeros back,
      length-replicate {A = ℕ} s.len 0,
    ) in
    let text = show_segments back in
    let gap : 8 - length front - length back ≡ s.len = omega arith in
    tail_read (show_segments front ++ (58 ∷ 58 ∷ text)) front text (groups_and back [])
      (read_groups-show_segments front 8 (58 ∷ 58 ∷ text) (omega arith)
        (All-take IsPort s.start gs h) (colons text))
      (omega arith)
      (ap (read_groups (8 - (length front + 1)) 0) (sym (append-nil text))
        ∙ read_groups-show_segments back (8 - (length front + 1)) [] (omega arith)
            (All-drop IsPort (s.start + s.len) gs h) nothing)
    ∙ ap (λ xs. some (ipv6_from xs, []))
        (ap (λ n. front ++ (replicate n 0 ++ back)) gap ∙ sym split)

abbrev pub IsRead : List ℕ → List ℕ → Type 0
IsRead gs text = (read_ipv4 text ≡ none) × (read_ipv6 text ≡ some (ipv6_from gs, []))

pub show_groups-IsRead : (gs : List ℕ) → length gs ≡ 8 → All IsPort gs → IsRead gs (show_groups gs)
unfolding show_groups
show_groups-IsRead gs e h =
    let s = longest_zeros 0 gs no_run no_run in
    let front = show_segments (take s.start gs) in
    let back = show_segments (drop (s.start + s.len) gs) in
    elim (Bool-cases (ltb 1 s.len)) [
      | inl c ↦ rw c (
        read_ipv4-show_segments (take s.start gs) (58 ∷ 58 ∷ back) (colons back),
        compressed_read gs e h s (ltb→lt 1 s.len c) (run_split s gs (longest_zeros-IsRun gs)),
      )
      | inr c ↦ rw c (
        ap read_ipv4 (sym (append-nil (show_segments gs))) ∙ read_ipv4-show_segments gs [] nothing,
        whole_read (show_segments gs) gs []
            (ap (read_groups 8 0) (sym (append-nil (show_segments gs)))
              ∙ read_groups-show_segments gs 8 [] (omega arith) h nothing)
            e,
      )
    ]
