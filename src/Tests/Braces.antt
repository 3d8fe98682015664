-- ===== src/Tests/Braces.antt =====
-- Texts with braces, by code points: `a{b"}"}c`.
use autonomy_engine.Base.{ℕ, ◌≡◌, refl, List, [], ◌∷◌, ◌++◌, drop, arith}
use autonomy_engine.World.{ok, raise, failure, value_error}
use autonomy_engine.Extraction.Braces.{open_brace, close_brace, extract_braced_body}
use autonomy_engine.Extraction.Braces.Grammar.{IsPlain, Balanced, Quoted}
use autonomy_engine.Extraction.Braces.Exact.{extract-Balanced}
use autonomy_engine.Extraction.Braces.Sound.{Body, extract-Body}

-- b"}"
abbrev body_text : List ℕ
body_text = 98 ∷ 34 ∷ 125 ∷ 34 ∷ []

b-IsPlain : IsPlain 98
b-IsPlain = record {
  no_backslash = λ e. ground arith;
  no_quote = refl;
  no_open = λ e. ground arith;
  no_close = λ e. ground arith;
}

body_text-Balanced : Balanced body_text
body_text-Balanced = Balanced.char b-IsPlain (
    Balanced.string refl (Quoted.char (λ e. ground arith) (λ e. ground arith) Quoted.done)
      Balanced.done)

extract-Balanced_example :
    extract_braced_body ((97 ∷ []) ++ (open_brace ∷ body_text ++ close_brace ∷ 99 ∷ [])) 1
    ≡ ok (open_brace ∷ body_text ++ close_brace ∷ [])
extract-Balanced_example = extract-Balanced (97 ∷ []) body_text (99 ∷ []) body_text-Balanced

taken : extract_braced_body (97 ∷ 123 ∷ 98 ∷ 125 ∷ 99 ∷ []) 1 ≡ ok (123 ∷ 98 ∷ 125 ∷ [])
unfolding extract_braced_body
taken = refl

unmatched :
    extract_braced_body (123 ∷ 123 ∷ 125 ∷ []) 0 ≡ raise (failure value_error "Unmatched '{'")
unfolding extract_braced_body
unmatched = refl

extract-Body_example : Body (drop 1 (97 ∷ 123 ∷ 98 ∷ 125 ∷ 99 ∷ [])) (123 ∷ 98 ∷ 125 ∷ [])
extract-Body_example = extract-Body (97 ∷ 123 ∷ 98 ∷ 125 ∷ 99 ∷ []) 1 (123 ∷ 98 ∷ 125 ∷ []) taken
