-- ===== src/Text/Pieces.antt =====
-- Splitting a text that was joined.
use in_c_test.Prelude.{
  ℕ, ◌≡◌, refl, ap, Bool, true, false, List, [], ◌∷◌, ◌++◌, Bool-cases, inl, inr, ◌==◌,
  if◌then◌else◌,
}
use in_c_test.Text.{
  Str, is_line_end, split_on, splitlines, drop_last_empty, universal_newlines, before,
  text_of_lines, rstrip,
}

-- No code point of the text satisfies the test.
abbrev pub NoChar : (ℕ → Bool) → Str → Type 0
NoChar p [] = Unit {0}
NoChar p (c ∷ s) = (p c ≡ false) × NoChar p s

pub NoChar-append : (p : ℕ → Bool) (s t : Str) → NoChar p s → NoChar p t → NoChar p (s ++ t)
NoChar-append p [] t hs ht = ht
NoChar-append p (c ∷ s) t hs ht = (hs.0, NoChar-append p s t hs.1 ht)

-- The same by evaluation.
abbrev pub free_of : (ℕ → Bool) → Str → Bool
free_of p [] = true
free_of p (c ∷ s) = let rest = free_of p s in if p c then false else rest

pub free_of→NoChar : (p : ℕ → Bool) (s : Str) → free_of p s ≡ true → NoChar p s
free_of→NoChar p [] h = tt
free_of→NoChar p (c ∷ s) h = elim (Bool-cases (p c)) [
  | inl e ↦ cc (rw e at h)
  | inr e ↦ (e, free_of→NoChar p s (rw e at h))
]

abbrev pub AllNoChar : (ℕ → Bool) → List Str → Type 0
AllNoChar p [] = Unit {0}
AllNoChar p (l ∷ ls) = NoChar p l × AllNoChar p ls

newline : is_line_end 10 ≡ true
unfolding is_line_end
newline = refl

-- A word without separators is one piece.
pub split_on-word : (sep : ℕ → Bool) (w : Str) → NoChar sep w → split_on sep w ≡ w ∷ []
unfolding split_on
split_on-word sep [] h = refl
split_on-word sep (c ∷ w) h = rw (h.0, split_on-word sep w h.1)

pub split_on-append :
    (sep : ℕ → Bool) (w : Str) (c : ℕ) (s : Str)
    → NoChar sep w
    → sep c ≡ true
    → split_on sep (w ++ (c ∷ s)) ≡ w ∷ split_on sep s
unfolding split_on
split_on-append sep [] c s h hc = rw hc
split_on-append sep (d ∷ w) c s h hc = rw (h.0, split_on-append sep w c s h.1 hc)

pub before-none : (sep : ℕ) (s : Str) → NoChar (λ c. c == sep) s → before sep s ≡ s
unfolding before
before-none sep [] h = refl
before-none sep (c ∷ s) h = rw (h.0, before-none sep s h.1)

pub universal_newlines-none : (s : Str) → NoChar (λ c. c == 13) s → universal_newlines s ≡ s
unfolding universal_newlines
universal_newlines-none [] h = refl
universal_newlines-none (c ∷ []) h = rw h.0
universal_newlines-none (c ∷ d ∷ s) h = rw (h.0, universal_newlines-none (d ∷ s) h.1)

-- What is not stripped from the end of a text is not stripped from the end of a longer one.
pub rstrip-append :
    (s : Str) (c : ℕ) (t : Str) → rstrip (c ∷ t) ≡ c ∷ t → rstrip (s ++ (c ∷ t)) ≡ s ++ (c ∷ t)
unfolding rstrip
rstrip-append [] c t h = h
rstrip-append (d ∷ []) c t h = rw h
rstrip-append (d ∷ e ∷ s) c t h = rw (rstrip-append (e ∷ s) c t h)

drop_last_empty-snoc : (ls : List Str) → drop_last_empty (ls ++ ([] ∷ [])) ≡ ls
drop_last_empty-snoc [] = refl
drop_last_empty-snoc ([] ∷ []) = refl
drop_last_empty-snoc ((c ∷ l) ∷ []) = refl
drop_last_empty-snoc (l ∷ m ∷ ls) = ap (λ r. l ∷ r) (drop_last_empty-snoc (m ∷ ls))

split_on-text :
    (ls : List Str)
    → AllNoChar is_line_end ls
    → split_on is_line_end (text_of_lines ls) ≡ ls ++ ([] ∷ [])
unfolding text_of_lines
split_on-text [] h = unfold split_on in refl
split_on-text (l ∷ ls) h =
    rw (split_on-append is_line_end l 10 (text_of_lines ls) h.0 newline)
      (ap (λ r. l ∷ r) (split_on-text ls h.1))

-- Lines that are joined are split again.
pub splitlines-text_of_lines :
    (ls : List Str) → AllNoChar is_line_end ls → splitlines (text_of_lines ls) ≡ ls
unfolding splitlines
splitlines-text_of_lines ls h = rw (split_on-text ls h) (drop_last_empty-snoc ls)
