-- ===== src/Std/ZeroRuns.antt =====
-- The run of zero groups that `Display` of an IPv6 address leaves out.
use proxy_protocol_rs.Prelude.{
  ℕ, zero, suc, ◌+◌, ◌<◌, ◌≡◌, refl, sym, ap, ◌∙◌, subst, ◌⊎◌, inl, inr, ◌==◌, ==_iff, ltb, ltb→lt,
  Bool-cases, if◌then◌else◌, List, [], ◌∷◌, ◌++◌, append_assoc, length, length-append, replicate,
  length-replicate, take, drop, take-append, drop-append, drop-drop, arith,
}
use proxy_protocol_rs.Std.IpDisplay.{Span, longest_zeros}

-- The span is a run of zeros in the list.
abbrev pub IsRun : Span → List ℕ → Type 0
IsRun s xs =
    (p : List ℕ) × (q : List ℕ) × (xs ≡ p ++ (replicate s.len 0 ++ q)) × (length p ≡ s.start)

-- The span is empty, or a run of zeros at the end of the list.
abbrev Ends : Span → List ℕ → Type 0
Ends s xs = (s.len ≡ 0) ⊎ ((p : List ℕ) × (xs ≡ p ++ replicate s.len 0) × (length p ≡ s.start))

replicate-last : (n : ℕ) → replicate {A = ℕ} n 0 ++ (0 ∷ []) ≡ replicate {A = ℕ} (suc n) 0
replicate-last zero = refl
replicate-last (suc n) = ap (◌∷◌ 0) (replicate-last n)

-- The run that goes on with one more zero
abbrev grown : ℕ → Span → Span
grown i s = record { start = if s.len == 0 then i else s.start; len = s.len + 1 }

grown-Ends :
    (i : ℕ) (s : Span) (pre : List ℕ)
    → length pre ≡ i
    → Ends s pre
    → Ends (grown i s) (pre ++ (0 ∷ []))
grown-Ends i s pre e h = elim (Bool-cases (s.len == 0)) [
  | inl z ↦ let empty = (==_iff s.len 0).0 z in rw (z, empty) (inr (pre, refl, e))
  | inr z ↦ elim h [
    | inl empty ↦ absurd (ground (arith, rw ((==_iff s.len 0).1 empty) at z))
    | inr (p, q, l) ↦
        let one : s.len + 1 ≡ suc s.len = omega arith in
        rw (z, one)
          (inr (
            p,
            ap (λ t. t ++ (0 ∷ [])) q
                ∙ (append_assoc p (replicate s.len 0) (0 ∷ [])
                    ∙ ap (◌++◌ p) (replicate-last s.len)),
            l,
          ))
  ]
]

-- A run at the end of the front is one of the whole list.
Ends-IsRun : (s : Span) (pre rest : List ℕ) → 0 < s.len → Ends s pre → IsRun s (pre ++ rest)
Ends-IsRun s pre rest lt h = elim h [
  | inl empty ↦ absurd (omega arith)
  | inr (p, q, l) ↦ (p, rest, ap (λ t. t ++ rest) q ∙ append_assoc p (replicate s.len 0) rest, l)
]

better :
    (s longest : Span) (pre rest : List ℕ)
    → Ends s pre
    → IsRun longest (pre ++ rest)
    → IsRun (if ltb longest.len s.len then s else longest) (pre ++ rest)
better s longest pre rest h k = elim (Bool-cases (ltb longest.len s.len)) [
  | inl e ↦ let lt = ltb→lt longest.len s.len e in rw e (Ends-IsRun s pre rest (omega arith) h)
  | inr e ↦ rw e k
]

next-Ends :
    (i g : ℕ) (s : Span) (pre : List ℕ)
    → length pre ≡ i
    → Ends s pre
    → Ends (if g == 0 then grown i s else record { start = 0; len = 0 }) (pre ++ (g ∷ []))
next-Ends i g s pre e h = elim (Bool-cases (g == 0)) [
  | inl z ↦ rw z (
      subst (λ k. Ends (grown i s) (pre ++ (k ∷ []))) (sym ((==_iff g 0).0 z))
        (grown-Ends i s pre e h))
  | inr z ↦ rw z (inl refl)
]

longest-IsRun :
    (i : ℕ) (pre gs : List ℕ) (current longest : Span)
    → length pre ≡ i
    → Ends current pre
    → IsRun longest (pre ++ gs)
    → IsRun (longest_zeros i gs current longest) (pre ++ gs)
unfolding longest_zeros
longest-IsRun i pre [] current longest e h k = k
longest-IsRun i pre (g ∷ gs) current longest e h k =
    let current' : Span = if g == 0 then grown i current else record { start = 0; len = 0 } in
    let split : (pre ++ (g ∷ [])) ++ gs ≡ pre ++ (g ∷ gs) = append_assoc pre (g ∷ []) gs in
    let ends = next-Ends i g current pre e h in
    let len : length (pre ++ (g ∷ [])) ≡ i + 1 = omega (arith, length-append pre (g ∷ [])) in
    subst (IsRun (longest_zeros i (g ∷ gs) current longest)) split (
      longest-IsRun (i + 1) (pre ++ (g ∷ [])) gs current'
        (if ltb longest.len current'.len then current' else longest) len ends
        (better current' longest (pre ++ (g ∷ [])) gs ends (subst (IsRun longest) (sym split) k)))

abbrev pub no_run : Span
no_run = record { start = 0; len = 0 }

-- The run found is a run of zeros.
pub longest_zeros-IsRun : (gs : List ℕ) → IsRun (longest_zeros 0 gs no_run no_run) gs
longest_zeros-IsRun gs = longest-IsRun 0 [] gs no_run no_run refl (inl refl) ([], gs, refl, refl)

-- What stands before a run and behind it
pub run_split :
    (s : Span) (xs : List ℕ)
    → IsRun s xs
    → (xs ≡ take s.start xs ++ (replicate s.len 0 ++ drop (s.start + s.len) xs))
run_split s xs (p, q, e, l) =
    let zeros = replicate s.len 0 in
    let front : take s.start xs ≡ p =
      ap (take s.start) e ∙ take-append p (zeros ++ q) s.start (sym l) in
    let back : drop (s.start + s.len) xs ≡ q =
      sym (drop-drop s.len s.start xs)
      ∙ (ap (λ t. drop s.len (drop s.start t)) e
          ∙ (ap (drop s.len) (drop-append p (zeros ++ q) s.start (sym l))
              ∙ drop-append zeros q s.len (sym (length-replicate {A = ℕ} s.len 0)))) in
    e
    ∙ ap (λ t. t.0 ++ (zeros ++ t.1))
        (let pair : ◌≡◌ {A = List ℕ × List ℕ} (p, q) (take s.start xs, drop (s.start + s.len) xs) =
            (rw (front, back)) in
          pair)
