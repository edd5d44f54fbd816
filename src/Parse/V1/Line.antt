-- ===== src/Parse/V1/Line.antt =====
-- The searches and splits of parse/v1.rs on a line given by its fields.
use proxy_protocol_rs.Prelude.{
  ℕ, suc, ◌+◌, ◌≤◌, ◌≡◌, ◌≢◌, refl, ap, inl, inr, false, ◌==◌, ==_iff, Bool-cases, Option, none,
  some, List, [], ◌∷◌, ◌++◌, length, length-append, min, take_all, All, arith,
}
use proxy_protocol_rs.Parse.V1.{find_crlf, split_space, splitn}
use proxy_protocol_rs.Parse.V1.Total.{window, window-append, find_crlf-append}

other : (a b : ℕ) → a ≢ b → (a == b) ≡ false
other a b h = elim (Bool-cases (a == b)) [ inl e ↦ absurd (h ((==_iff a b).0 e)) | inr e ↦ e ]

find_line :
    (xs r : List ℕ)
    → All (λ b. b ≢ 0x0d) xs
    → find_crlf (xs ++ (0x0d ∷ 0x0a ∷ r)) ≡ some (length xs)
unfolding find_crlf
find_line [] r h = refl
find_line (a ∷ []) r h = rw (other a 0x0d h.0)
find_line (a ∷ b ∷ xs) r h = rw (other a 0x0d h.0, find_line (b ∷ xs) r h.1)

-- The end of a short line is found in the window.
pub window-line :
    (xs more : List ℕ)
    → All (λ b. b ≢ 0x0d) xs
    → length xs + 2 ≤ 107
    → find_crlf (window ((xs ++ (0x0d ∷ 0x0a ∷ [])) ++ more)) ≡ some (length xs)
window-line xs more h k =
    let line = xs ++ (0x0d ∷ 0x0a ∷ []) in
    let (rest, w) = window-append line more in
    let len = length-append xs (0x0d ∷ 0x0a ∷ []) in
    let whole : window line ≡ line = take_all line (min (length line) 107) (omega arith) in
    rw (w, whole) (find_crlf-append line rest (find_line xs [] h))

split_field : (xs r : List ℕ) → All (λ b. b ≢ 32) xs → split_space (xs ++ (32 ∷ r)) ≡ (xs, some r)
unfolding split_space
split_field [] r h = refl
split_field (x ∷ xs) r h = rw (other x 32 h.0, split_field xs r h.1)

split_last : (xs : List ℕ) → All (λ b. b ≢ 32) xs → split_space xs ≡ (xs, none)
unfolding split_space
split_last [] h = refl
split_last (x ∷ xs) h = rw (other x 32 h.0, split_last xs h.1)

abbrev part : ℕ → List ℕ → List ℕ × Option (List ℕ) → List (List ℕ)
part n bs p = elim p.1 [ none ↦ bs ∷ [] | some rest ↦ p.0 ∷ splitn (suc n) rest ]

pub splitn-field :
    (n : ℕ) (xs r : List ℕ)
    → All (λ b. b ≢ 32) xs
    → splitn (suc (suc n)) (xs ++ (32 ∷ r)) ≡ xs ∷ splitn (suc n) r
unfolding splitn
splitn-field n xs r h = ap (part n (xs ++ (32 ∷ r))) (split_field xs r h)

pub splitn-last : (n : ℕ) (xs : List ℕ) → All (λ b. b ≢ 32) xs → splitn (suc (suc n)) xs ≡ xs ∷ []
unfolding splitn
splitn-last n xs h = ap (part n xs) (split_last xs h)
