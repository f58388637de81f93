-- ===== src/ExpertStore/Sidecar.antt =====
-- The sidecar that is written is the mask that is read.
use mathlib.Core.List.{append_assoc, append-nil}
use in_c_test.Prelude.{
  ℕ, ◌≡◌, refl, sym, ap, ◌∙◌, Bool, true, false, List, [], ◌∷◌, ◌++◌, map, ok, leb, ◌==◌, arith,
}
use in_c_test.Text.{codes}
use in_c_test.Text.{Str, is_digit, is_line_end, text_of_lines}
use in_c_test.Text.Pieces.{
  NoChar, NoChar-append, AllNoChar, free_of, free_of→NoChar, universal_newlines-none,
  splitlines-text_of_lines,
}
use in_c_test.Text.Utf8.{decode, IsAscii, decode-ascii}
use in_c_test.ExpertStore.{Key}
use in_c_test.ExpertStore.KeySets.{Distinct, Fresh, Distinct→Fresh, Avoids-nil, Distinct-sorted}
use in_c_test.ExpertStore.Mask.{
  parse_line, parse_lines, parse_mask, not_empty, read_mask, key_line, mask_comments, mask_text,
  sorted,
}
use in_c_test.ExpertStore.MaskRoundTrip.{parse_line-key_line, key_line_no}

parse_lines-keys :
    (ks seen : List Key) → Fresh seen ks → parse_lines (map key_line ks) seen ≡ ok (seen ++ ks)
unfolding parse_lines
parse_lines-keys [] seen f = ap ok (sym (append-nil seen))
parse_lines-keys (k ∷ ks) seen f =
    rw (parse_line-key_line k)
      (rw f.0 (parse_lines-keys ks (seen ++ k ∷ []) f.1 ∙ ap ok (append_assoc seen (k ∷ []) ks)))

parse_lines-comments : (ls : List Str) → parse_lines (mask_comments ++ ls) [] ≡ parse_lines ls []
unfolding parse_lines parse_line
parse_lines-comments ls = refl

-- A test that fails on digits, on the space and on the comments fails on all lines.
lines_no :
    (p : ℕ → Bool)
    → ((c : ℕ) → is_digit c ≡ true → p c ≡ false)
    → p b' ' ≡ false
    → (ks : List Key) → AllNoChar p (map key_line ks)
lines_no p h space [] = tt
lines_no p h space (k ∷ ks) = (key_line_no p h space k, lines_no p h space ks)

text_of_lines_no :
    (p : ℕ → Bool) (ls : List Str) → AllNoChar p ls → p 10 ≡ false → NoChar p (text_of_lines ls)
unfolding text_of_lines
text_of_lines_no p [] h e = tt
text_of_lines_no p (l ∷ ls) h e =
    NoChar-append p l (10 ∷ text_of_lines ls) h.0 (e, text_of_lines_no p ls h.1 e)

NoChar→IsAscii : (s : Str) → NoChar (leb 0x80) s → IsAscii s
NoChar→IsAscii [] h = tt
NoChar→IsAscii (c ∷ s) h = (ground (arith, h.0), NoChar→IsAscii s h.1)

end_not_digit : (c : ℕ) → is_digit c ≡ true → is_line_end c ≡ false
unfolding is_digit is_line_end
end_not_digit c h = ground arith

return_not_digit : (c : ℕ) → is_digit c ≡ true → (c == 13) ≡ false
unfolding is_digit
return_not_digit c h = ground arith

high_not_digit : (c : ℕ) → is_digit c ≡ true → leb 0x80 c ≡ false
unfolding is_digit
high_not_digit c h = ground arith

comments_no :
    (p : ℕ → Bool) (rest : List Str)
    → free_of p (codes "# KVL_MOE_MASK_V1") ≡ true
    → free_of p (codes "# Bound to the physically absent routed expert records.") ≡ true
    → AllNoChar p rest
    → AllNoChar p (mask_comments ++ rest)
comments_no p rest h h' r = (
  free_of→NoChar p (codes "# KVL_MOE_MASK_V1") h,
  (free_of→NoChar p (codes "# Bound to the physically absent routed expert records.") h', r),
)

module _ (ks : List Key) where
  abbrev lines : List Str
  lines = mask_comments ++ map key_line ks

  lines_no_end : AllNoChar is_line_end lines
  unfolding is_line_end
  lines_no_end =
      comments_no is_line_end (map key_line ks) refl refl
        (lines_no is_line_end end_not_digit refl ks)

  text_no_return : NoChar (λ c. c == 13) (text_of_lines lines)
  text_no_return =
      text_of_lines_no (λ c. c == 13) lines
        (comments_no (λ c. c == 13) (map key_line ks) refl refl
          (lines_no (λ c. c == 13) return_not_digit refl ks))
        refl

  text-IsAscii : IsAscii (text_of_lines lines)
  text-IsAscii = NoChar→IsAscii (text_of_lines lines) (
      text_of_lines_no (leb 0x80) lines
        (comments_no (leb 0x80) (map key_line ks) refl refl
          (lines_no (leb 0x80) high_not_digit refl ks))
        refl)

  parse-text : Fresh [] ks → parse_mask (decode (text_of_lines lines)) ≡ not_empty ks
  parse-text fresh = rw (decode-ascii (text_of_lines lines) text-IsAscii) (
      rw (universal_newlines-none (text_of_lines lines) text_no_return) (
        rw (splitlines-text_of_lines lines lines_no_end)
          (rw (parse_lines-comments (map key_line ks)) (rw (parse_lines-keys ks [] fresh) refl))))

read_mask-sorted :
    (ks : List Key) → Distinct (sorted ks) → read_mask (mask_text ks) ≡ not_empty (sorted ks)
unfolding read_mask mask_text
read_mask-sorted ks d =
    parse-text (sorted ks) (Distinct→Fresh [] (sorted ks) d (Avoids-nil (sorted ks)))

-- Reading the sidecar that `write_mask_sidecar` wrote for a set of disabled experts gives that
-- set, sorted, unless it is empty.
pub read_mask-mask_text :
    (disabled : List Key)
    → Distinct disabled
    → read_mask (mask_text disabled) ≡ not_empty (sorted disabled)
read_mask-mask_text ks d = read_mask-sorted ks (Distinct-sorted ks d)
