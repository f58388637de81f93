-- ===== src/MemoryPlan/Request.antt =====
-- How a trunk-cache request is read.
use in_c_test.Prelude.{ℕ, ◌≡◌, refl, list_eq, false, ◌∷◌, [], some, ok, arith, ◌∙◌}
use in_c_test.Prelude.Int.{pos}
use in_c_test.Text.{Str, is_digit, lower}
use in_c_test.Text.Print.{show, show-digits, AllChars, parse_int-show, strip-digits}
use in_c_test.MemoryPlan.{int, str, auto_text, parse_trunk_cache_request}

lower-digits : (s : Str) → AllChars is_digit s → lower s ≡ s
unfolding lower is_digit
lower-digits [] h = refl
lower-digits (c ∷ s) h = ground (arith, lower-digits s h.1)

digits_not_auto : (s : Str) → AllChars is_digit s → list_eq s auto_text ≡ false
unfolding list_eq is_digit
digits_not_auto [] h = refl
digits_not_auto (c ∷ s) h = ground arith

read_number : (n : ℕ) (s : Str) → s ≡ show n → parse_trunk_cache_request (str s) ≡ ok (some n)
unfolding parse_trunk_cache_request
read_number n s e =
    let digits : AllChars is_digit s = rw e (show-digits n) in
    rw (strip-digits s digits)
      (rw (lower-digits s digits) (rw (digits_not_auto s digits) (rw (e, parse_int-show n) refl)))

-- A request written in decimal digits is the same request as the number.
pub parse_trunk_cache_request-show :
    (n : ℕ) → parse_trunk_cache_request (str (show n)) ≡ parse_trunk_cache_request (int (pos n))
parse_trunk_cache_request-show n =
    read_number n (show n) refl ∙ unfold parse_trunk_cache_request in refl
