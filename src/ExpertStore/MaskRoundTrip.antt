-- ===== src/ExpertStore/MaskRoundTrip.antt =====
-- The sidecar that is written is the mask that is read.
use in_c_test.Prelude.{
  ℕ, ◌≡◌, refl, sym, ap, ◌∙◌, Bool, true, false, some, [], ◌∷◌, ◌++◌, ok, ◌==◌, arith,
}
use in_c_test.Text.{Str, is_space, is_digit, strip, split, drop_empty, before}
use in_c_test.Text.Print.{
  show, show-cons, show-digits, AllChars, digit_not_space, lstrip-digit, rstrip-digits,
  parse_int-show,
}
use in_c_test.Text.Pieces.{
  NoChar, NoChar-append, split_on-word, split_on-append, before-none, rstrip-append,
}
use in_c_test.ExpertStore.{Key}
use in_c_test.ExpertStore.Mask.{parse_pair, parse_line, key_line}

-- A test that no digit and no space passes fails on a line of the sidecar.
digits_no :
    (p : ℕ → Bool)
    → ((c : ℕ) → is_digit c ≡ true → p c ≡ false)
    → (s : Str) → AllChars is_digit s
    → NoChar p s
digits_no p h [] d = tt
digits_no p h (c ∷ s) d = (h c d.0, digits_no p h s d.1)

pub key_line_no :
    (p : ℕ → Bool)
    → ((c : ℕ) → is_digit c ≡ true → p c ≡ false)
    → p b' ' ≡ false
    → (k : Key) → NoChar p (key_line k)
unfolding key_line
key_line_no p h space (l, e) =
    NoChar-append p (show l) (b' ' ∷ show e) (digits_no p h (show l) (show-digits l))
      (space, digits_no p h (show e) (show-digits e))

hash_no_digit : (c : ℕ) → is_digit c ≡ true → (c == b'#') ≡ false
unfolding is_digit
hash_no_digit c h = ground arith

space_is_space : is_space b' ' ≡ true
unfolding is_space
space_is_space = refl

strip-two :
    (a b : Str) (c : ℕ) (s : Str) (d : ℕ) (t : Str)
    → a ≡ c ∷ s
    → b ≡ d ∷ t
    → AllChars is_digit a
    → AllChars is_digit b
    → strip (a ++ (b' ' ∷ b)) ≡ a ++ (b' ' ∷ b)
strip-two [] b c s d t ea eb ha hb = cc
strip-two (x ∷ a) [] c s d t ea eb ha hb = cc
strip-two (x ∷ a) (y ∷ b) c s d t ea eb ha hb =
    unfold strip in
    rw (lstrip-digit x (a ++ (b' ' ∷ y ∷ b)) ha.0) (
      rstrip-append (x ∷ a) b' ' (y ∷ b) (rstrip-append (b' ' ∷ []) y b (rstrip-digits (y ∷ b) hb)))

strip-key_line : (k : Key) → strip (key_line k) ≡ key_line k
unfolding key_line
strip-key_line (l, e) =
    let (c, s, el) = show-cons l in
    let (d, t, ee) = show-cons e in
    strip-two (show l) (show e) c s d t el ee (show-digits l) (show-digits e)

drop_empty-two :
    (a b : Str) (c : ℕ) (s : Str) (d : ℕ) (t : Str)
    → a ≡ c ∷ s
    → b ≡ d ∷ t
    → drop_empty (a ∷ b ∷ []) ≡ a ∷ b ∷ []
drop_empty-two [] b c s d t ea eb = cc
drop_empty-two (x ∷ a) [] c s d t ea eb = cc
drop_empty-two (x ∷ a) (y ∷ b) c s d t ea eb = refl

split-key_line : (l e : ℕ) → split (key_line (l, e)) ≡ show l ∷ show e ∷ []
unfolding split key_line
split-key_line l e =
    let (c, s, el) = show-cons l in
    let (d, t, ee) = show-cons e in
    ap drop_empty (
      split_on-append is_space (show l) b' ' (show e)
        (digits_no is_space digit_not_space (show l) (show-digits l)) space_is_space
      ∙ ap (λ r. show l ∷ r)
          (split_on-word is_space (show e)
            (digits_no is_space digit_not_space (show e) (show-digits e))))
    ∙ drop_empty-two (show l) (show e) c s d t el ee

parse_pair-shown : (l e : ℕ) → parse_pair (show l ∷ show e ∷ []) ≡ ok (l, e)
unfolding parse_pair
parse_pair-shown l e = rw (parse_int-show l, parse_int-show e) refl

parse_line-cons :
    (raw : Str) (c : ℕ) (line : Str) {k : Key}
    → strip (before b'#' raw) ≡ c ∷ line
    → parse_pair (split (c ∷ line)) ≡ ok k
    → parse_line raw ≡ ok (some k)
unfolding parse_line
parse_line-cons raw c line e h = rw (e, parse_line) (rw h refl)

-- A line of the sidecar is read as the pair that it was written for.
pub parse_line-key_line : (k : Key) → parse_line (key_line k) ≡ ok (some k)
parse_line-key_line (l, e) =
    let (c, s, el) = show-cons l in
    let whole : key_line (l, e) ≡ c ∷ (s ++ (b' ' ∷ show e)) =
      unfold key_line in ap (λ w. w ++ (b' ' ∷ show e)) el in
    parse_line-cons (key_line (l, e)) c (s ++ (b' ' ∷ show e))
      (ap strip (
          before-none b'#' (key_line (l, e))
            (key_line_no (λ c. c == b'#') hash_no_digit refl (l, e)))
        ∙ strip-key_line (l, e)
        ∙ whole)
      (ap (λ w. parse_pair (split w)) (sym whole)
        ∙ ap parse_pair (split-key_line l e)
        ∙ parse_pair-shown l e)
