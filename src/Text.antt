-- ===== src/Text.antt =====
-- Python text as a list of code points: the parts of `str` that the tools use
-- (`strip`, `split`, `split(sep, 1)[0]`, `splitlines`, `int`, `str` of a number).
-- Of the decimal digits that `int` knows, those of ASCII are modelled.
pub mod Print
pub mod Utf8
pub mod Pieces
use Prim.Native.String.{String}
use Prim.Native.Char.{code}
use in_c_test.Prelude.{
  ℕ, zero, suc, ◌+◌, ◌-◌, ◌*◌, Bool, true, false, not, ◌&&◌, ◌||◌, Option, none, some, List, [],
  ◌∷◌, ◌++◌, leb, ◌==◌, if◌then◌else◌,
}
use in_c_test.Prelude.Int.{ℤ, pos, negsuc}

abbrev pub Str : Type 0
Str = List ℕ

-- The code points of a literal.
abbrev pub codes : String → Str
codes String.[] = []
codes (String.◌∷◌ c s) = code c ∷ codes s

-- `sep.join(parts)`
unfoldable pub join : Str → List Str → Str
join sep [] = []
join sep (w ∷ []) = w
join sep (w ∷ v ∷ ws) = w ++ (sep ++ join sep (v ∷ ws))

-- `if part`, for the parts that are joined
abbrev pub non_empty : List Str → List Str
non_empty [] = []
non_empty ([] ∷ ws) = non_empty ws
non_empty ((c ∷ w) ∷ ws) = (c ∷ w) ∷ non_empty ws

-- What follows a prefix: `s.startswith(prefix)`, and `s[len(prefix):]`.
unfoldable pub strip_prefix : Str → Str → Option Str
strip_prefix [] s = some s
strip_prefix (p ∷ ps) [] = none
strip_prefix (p ∷ ps) (c ∷ s) = let rest = strip_prefix ps s in if p == c then rest else none

-- The code points on which `str.isspace` holds.
unfoldable pub is_space : ℕ → Bool
is_space c =
    (leb 9 c && leb c 13)
    || ((leb 28 c && leb c 32)
        || (c == 0x85
            || (c == 0xa0
                || (c == 0x1680
                    || ((leb 0x2000 c && leb c 0x200a)
                        || (c == 0x2028
                            || (c == 0x2029 || (c == 0x202f || (c == 0x205f || c == 0x3000)))))))))

-- The code points that end a line for `str.splitlines`.
unfoldable pub is_line_end : ℕ → Bool
is_line_end c =
    (leb 10 c && leb c 13)
    || ((leb 28 c && leb c 30) || (c == 0x85 || (c == 0x2028 || c == 0x2029)))

unfoldable pub is_digit : ℕ → Bool
is_digit c = leb b'0' c && leb c b'9'

unfoldable pub lstrip : Str → Str
unfolding is_space
lstrip [] = []
lstrip (c ∷ s) = let rest = lstrip s in if is_space c then rest else c ∷ s

abbrev pub snoc_stripped : ℕ → Str → Str
snoc_stripped c (d ∷ s) = c ∷ d ∷ s
snoc_stripped c [] = if is_space c then [] else c ∷ []

unfoldable pub rstrip : Str → Str
unfolding is_space
rstrip [] = []
rstrip (c ∷ s) = snoc_stripped c (rstrip s)

unfoldable pub strip : Str → Str
unfolding lstrip rstrip
strip s = rstrip (lstrip s)

-- `s.lower()` on the letters of ASCII.
unfoldable pub lower : Str → Str
lower [] = []
lower (c ∷ s) = (if leb b'A' c && leb c b'Z' then c + 32 else c) ∷ lower s

-- `c` before the first of the pieces.
abbrev pub onto_first : ℕ → List Str → List Str
onto_first c [] = (c ∷ []) ∷ []
onto_first c (w ∷ ws) = (c ∷ w) ∷ ws

-- The pieces between the separators, empty ones too; never the empty list.
unfoldable pub split_on : (ℕ → Bool) → Str → List Str
split_on sep [] = [] ∷ []
split_on sep (c ∷ s) = let rest = split_on sep s in if sep c then [] ∷ rest else onto_first c rest

abbrev pub drop_empty : List Str → List Str
drop_empty [] = []
drop_empty ([] ∷ ws) = drop_empty ws
drop_empty ((c ∷ w) ∷ ws) = (c ∷ w) ∷ drop_empty ws

-- `s.split()`
unfoldable pub split : Str → List Str
unfolding split_on is_space
split s = drop_empty (split_on is_space s)

-- `s.split(sep, 1)[0]`
unfoldable pub before : ℕ → Str → Str
before sep [] = []
before sep (c ∷ s) = let rest = before sep s in if c == sep then [] else c ∷ rest

-- A last empty piece is no line.
abbrev pub drop_last_empty : List Str → List Str
drop_last_empty [] = []
drop_last_empty ([] ∷ []) = []
drop_last_empty ((c ∷ w) ∷ []) = (c ∷ w) ∷ []
drop_last_empty (v ∷ w ∷ ws) = v ∷ drop_last_empty (w ∷ ws)

-- Text mode reads "\r\n" and "\r" as "\n".
unfoldable pub universal_newlines : Str → Str
universal_newlines [] = []
universal_newlines (c ∷ []) = (if c == 13 then 10 else c) ∷ []
universal_newlines (c ∷ d ∷ s) =
    let rest = universal_newlines (d ∷ s) in
    if c == 13 then (if d == 10 then rest else 10 ∷ rest) else c ∷ rest

-- `s.splitlines()` of a text without carriage returns
unfoldable pub splitlines : Str → List Str
unfolding split_on is_line_end
splitlines s = drop_last_empty (split_on is_line_end s)

-- `"\n".join(lines) + "\n"`
unfoldable pub text_of_lines : List Str → Str
text_of_lines [] = []
text_of_lines (l ∷ ls) = l ++ (10 ∷ text_of_lines ls)

-- Digits, with single underscores between them. `n` is the value read so far; `wanted` says that a
-- digit must come next.
unfoldable pub int_digits : Bool → ℕ → Str → Option ℕ
unfolding is_digit
int_digits wanted n [] = if wanted then none else some n
int_digits wanted n (c ∷ s) =
    let rest = int_digits (c == b'_') (if is_digit c then n * 10 + (c - b'0') else n) s in
    if is_digit c || (c == b'_' && not wanted) then rest else none

-- The sign of an integer literal and its digits.
abbrev pub signed : Bool → Option ℕ → Option ℤ
signed negative none = none
signed true (some zero) = some (pos 0)
signed true (some (suc n)) = some (negsuc n)
signed false (some n) = some (pos n)

abbrev pub int_body : Str → Option ℤ
int_body [] = none
int_body (c ∷ s) =
    if c == b'-'
    then signed true (int_digits true 0 s)
    else if c == b'+'
    then signed false (int_digits true 0 s)
    else signed false (int_digits true 0 (c ∷ s))

-- `int(s)`; `none` is its ValueError.
unfoldable pub parse_int : Str → Option ℤ
unfolding strip int_digits
parse_int s = int_body (strip s)
