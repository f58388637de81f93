-- ===== src/Dynskip/Classes.antt =====
-- The classes of the tokens of a dialogue.
use in_c_test.Prelude.{
  ℕ, ◌≡◌, ◌≢◌, refl, ap, ◌∙◌, true, false, List, [], ◌∷◌, ◌++◌, ◌==◌, map, arith,
}
use in_c_test.Dynskip.{
  Family, control, content, media, State, outside, system, user_header, user_body, media_state,
  im_end, im_user, im_system, im_middle, media_start, media_end, media_pad, step, classify,
}

abbrev pub AllTokens : (ℕ → Type 0) → List ℕ → Type 0
AllTokens P [] = Unit {0}
AllTokens P (t ∷ ts) = P t × AllTokens P ts

-- Tokens that a header, and that a body of plain text is made of.
abbrev pub InHeader : ℕ → Type 0
InHeader t = (t ≢ im_system) × (t ≢ im_user) × (t ≢ im_middle)

abbrev pub IsText : ℕ → Type 0
IsText t = (t ≢ im_system) × (t ≢ im_user) × (t ≢ im_end) × (t ≢ media_start) × (t ≢ media_pad)

abbrev pub InSystem : ℕ → Type 0
InSystem t = t ≢ im_end

-- Tokens between the start and the end of a picture.
abbrev pub InMedia : ℕ → Type 0
InMedia t = (t ≢ im_system) × (t ≢ im_user) × (t ≢ media_end)

abbrev pub constant : Family → List ℕ → List Family
constant f ts = map (λ t. f) ts

abbrev pub pad_or_control : ℕ → Family
pad_or_control t = elim (t == media_pad) [ true ↦ media | false ↦ control ]

header_step : (t : ℕ) → InHeader t → step user_header t ≡ (user_header, control)
unfolding step
header_step t (a, b, c) = ground arith

text_step : (t : ℕ) → IsText t → step user_body t ≡ (user_body, content)
unfolding step
text_step t (a, b, c, d, e) = ground arith

system_step : (t : ℕ) → InSystem t → step system t ≡ (system, control)
unfolding step
system_step t a = ground arith

media_step : (t : ℕ) → InMedia t → step media_state t ≡ (media_state, pad_or_control t)
unfolding step
media_step t (a, b, c) = ground arith

classify-cons :
    (s s' : State) (t : ℕ) (ts : List ℕ) (f : Family)
    → step s t ≡ (s', f)
    → classify s (t ∷ ts) ≡ f ∷ classify s' ts
unfolding classify
classify-cons s s' t ts f e = ap (λ (p : State × Family). p.1 ∷ classify p.0 ts) e

-- A run of tokens that leave the state as it is.
classify-loop :
    (s : State) (P : ℕ → Type 0) (f : ℕ → Family)
    → ((t : ℕ) → P t → step s t ≡ (s, f t))
    → (ts rest : List ℕ) → AllTokens P ts
    → classify s (ts ++ rest) ≡ map f ts ++ classify s rest
classify-loop s P f loop [] rest h = refl
classify-loop s P f loop (t ∷ ts) rest (p, h) =
    classify-cons s s t (ts ++ rest) (f t) (loop t p)
    ∙ ap (λ l. f t ∷ l) (classify-loop s P f loop ts rest h)

-- From the outside, the body of a user's turn is content, its marks and its header are control, and
-- whatever comes behind its end is classified as from the outside: if the header has none of the
-- marks of a system, of a user and of the middle, and the body none of the marks of a system, of a
-- user, of the end, of a picture's start and of a pad.
pub classify-user_turn :
    (header body rest : List ℕ)
    → AllTokens InHeader header
    → AllTokens IsText body
    → classify outside (im_user ∷ header ++ (im_middle ∷ body ++ (im_end ∷ rest)))
      ≡ control ∷ constant control header
        ++ (control ∷ constant content body ++ (control ∷ classify outside rest))
classify-user_turn header body rest h b =
    classify-cons outside user_header im_user (header ++ (im_middle ∷ body ++ (im_end ∷ rest)))
      control (unfold step in refl)
    ∙ ap (λ l. control ∷ l)
        (classify-loop user_header InHeader (λ t. control) header_step header
            (im_middle ∷ body ++ (im_end ∷ rest)) h
          ∙ ap (λ l. constant control header ++ l)
              (classify-cons user_header user_body im_middle (body ++ (im_end ∷ rest)) control
                  (unfold step in refl)
                ∙ ap (λ l. control ∷ l)
                    (classify-loop user_body IsText (λ t. content) text_step body (im_end ∷ rest) b
                      ∙ ap (λ l. constant content body ++ l)
                          (classify-cons user_body outside im_end rest control
                            (unfold step in refl)))))

-- From any state, all tokens of a system turn are control, whatever marks its body holds but for the
-- end, and what comes behind its end is classified as from the outside.
pub classify-system_turn :
    (s : State) (body rest : List ℕ)
    → AllTokens InSystem body
    → classify s (im_system ∷ body ++ (im_end ∷ rest))
      ≡ control ∷ constant control body ++ (control ∷ classify outside rest)
classify-system_turn s body rest b =
    classify-cons s system im_system _ control (unfold step in refl)
    ∙ ap (λ l. control ∷ l)
        (classify-loop system InSystem (λ t. control) system_step body (im_end ∷ rest) b
          ∙ ap (λ l. constant control body ++ l)
              (classify-cons system outside im_end rest control (unfold step in refl)))

-- In the body of a user, the pads of a picture are media and its other tokens control, and the body
-- goes on behind its end: if the picture has none of the marks of a system, of a user and of its end.
pub classify-picture :
    (picture rest : List ℕ)
    → AllTokens InMedia picture
    → classify user_body (media_start ∷ picture ++ (media_end ∷ rest))
      ≡ control ∷ map pad_or_control picture ++ (control ∷ classify user_body rest)
classify-picture picture rest p =
    classify-cons user_body media_state media_start _ control (unfold step in refl)
    ∙ ap (λ l. control ∷ l)
        (classify-loop media_state InMedia pad_or_control media_step picture (media_end ∷ rest) p
          ∙ ap (λ l. map pad_or_control picture ++ l)
              (classify-cons media_state user_body media_end rest control (unfold step in refl)))
