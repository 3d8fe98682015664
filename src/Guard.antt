-- ===== src/Guard.antt =====
-- engine/prompt_guard.py: hygiene of prompts. A text is its list of code points.
pub mod Escaped
use Prim.Native.Char.{code}
use autonomy_engine.Base.{
  ℕ, zero, suc, ◌+◌, ◌-◌, String, Option, none, some, List, [], ◌∷◌, ◌++◌, Bool, true, false, eqb,
  leb, ltb, length, take, drop, or_default, if◌then◌else◌,
}
use autonomy_engine.World.{failure, value_error, Result, ok, raise}

abbrev pub Text : Type 0
Text = List ℕ

unfoldable pub codes : String → Text
codes String.[] = []
codes (String.◌∷◌ c s) = code c ∷ codes s

-- s.startswith(p)
abbrev pub begins : Text → Text → Bool
begins s [] = true
begins [] (d ∷ p) = false
begins (c ∷ s) (d ∷ p) = let rest = begins s p in if eqb c d then rest else false

-- p in s
abbrev pub occurs : Text → Text → Bool
occurs p [] = begins [] p
occurs p (c ∷ s) = let rest = occurs p s in if begins (c ∷ s) p then true else rest

-- s.replace(old, new), with the number of characters to skip in an occurrence of `old`
unfoldable pub replace_at : Text → Text → ℕ → Text → Text
replace_at old new n [] = []
replace_at old new (suc n) (c ∷ s) = replace_at old new n s
replace_at old new zero (c ∷ s) =
    let after = replace_at old new (length old - 1) s in
    let rest = replace_at old new 0 s in if begins (c ∷ s) old then new ++ after else c ∷ rest

unfoldable pub replace : Text → Text → Text → Text
unfolding replace_at
replace old new s = replace_at old new 0 s

abbrev pub between : ℕ → ℕ → ℕ → Bool
between a b c = if leb a c then leb c b else false

-- _BIDI_CONTROLS
abbrev pub is_bidi : ℕ → Bool
is_bidi c =
    if between 8234 8238 c then true else if between 8294 8297 c then true else between 8206 8207 c

unfoldable pub strip_controls : Text → Text
strip_controls [] = []
strip_controls (c ∷ s) = let rest = strip_controls s in if is_bidi c then rest else c ∷ rest

-- text.replace("\x00", "")
unfoldable pub strip_null : Text → Text
strip_null [] = []
strip_null (c ∷ s) = let rest = strip_null s in if eqb c 0 then rest else c ∷ rest

abbrev pub is_letter : ℕ → Bool
is_letter c = if between b'A' b'Z' c then true else between b'a' b'z' c

abbrev pub is_word : ℕ → Bool
is_word c = if is_letter c then true else if between b'0' b'9' c then true else eqb c b'_'

-- `[A-Za-z0-9_]*$`, where `$` also stands before a line feed at the end
unfoldable pub is_word_end : Text → Bool
is_word_end [] = true
is_word_end (c ∷ []) = if is_word c then true else eqb c 10
is_word_end (c ∷ d ∷ s) = let rest = is_word_end (d ∷ s) in if is_word c then rest else false

-- _TAG_RE
unfoldable pub is_tag : Text → Bool
unfolding is_word_end
is_tag [] = false
is_tag (c ∷ s) = let rest = is_word_end s in if is_letter c then rest else false

abbrev pub nested : Text
nested = b'_' ∷ b'N' ∷ b'E' ∷ b'S' ∷ b'T' ∷ b'E' ∷ b'D' ∷ b'>' ∷ []

abbrev pub open_tag : Text → Text
open_tag tag = b'<' ∷ (tag ++ (b'>' ∷ []))

abbrev pub close_tag : Text → Text
close_tag tag = b'<' ∷ b'/' ∷ (tag ++ (b'>' ∷ []))

abbrev pub escaped_open : Text → Text
escaped_open tag = b'<' ∷ (tag ++ nested)

abbrev pub escaped_close : Text → Text
escaped_close tag = b'<' ∷ b'/' ∷ (tag ++ nested)

-- the text between the tags
unfoldable pub escape_body : Text → Text → Text
unfolding replace strip_controls strip_null
escape_body tag text =
    replace (close_tag tag) (escaped_close tag)
      (replace (open_tag tag) (escaped_open tag) (strip_null (strip_controls text)))

-- `none` is None. A value that is no text is its `str` by then.
unfoldable pub sanitize_untrusted : Option Text → Text → Result Text
unfolding is_tag escape_body
sanitize_untrusted text tag =
    if is_tag tag
    then ok (open_tag tag ++ (escape_body tag (or_default [] text) ++ close_tag tag))
    else raise (failure value_error "sanitize_untrusted: invalid tag")

-- ^%%CANARY_[0-9a-f]{16}%%$
abbrev pub is_hex : ℕ → Bool
is_hex c = if between b'0' b'9' c then true else between b'a' b'f' c

unfoldable pub is_hex_then : ℕ → Text → Bool
is_hex_then zero s =
    if begins s (b'%' ∷ b'%' ∷ [])
    then (elim (drop 2 s) [ [] ↦ true | c ∷ r ↦ (elim r [ [] ↦ eqb c 10 | d ∷ t ↦ false ]) ])
    else false
is_hex_then (suc n) [] = false
is_hex_then (suc n) (c ∷ s) = let rest = is_hex_then n s in if is_hex c then rest else false

abbrev pub canary_start : Text
canary_start = b'%' ∷ b'%' ∷ b'C' ∷ b'A' ∷ b'N' ∷ b'A' ∷ b'R' ∷ b'Y' ∷ b'_' ∷ []

unfoldable pub is_canary : Text → Bool
unfolding is_hex_then
is_canary s = if begins s canary_start then is_hex_then 16 (drop 9 s) else false

unfoldable pub check_canary_reflected : Text → Text → Bool
unfolding is_canary
check_canary_reflected output canary = if is_canary canary then occurs canary output else false

-- What the regular expressions find: the spans of `_OVERRIDE_RE`, and whether `_VERDICT_RE` is found.
pub record Patterns : Type 0 where
  pub override_spans : Text → List (ℕ × ℕ)
  pub has_verdict : Text → Bool

pub data Verdict : Type 0 where
  safe canary_reflected : Verdict
  override_near_verdict : Text → Verdict

module _ (R : Patterns) where
  -- output[start:end]
  abbrev pub window : Text → ℕ → ℕ → Text
  window s a b =
      let end = if leb (b + 200) (length s) then b + 200 else length s in
      take (end - (a - 200)) (drop (a - 200) s)

  unfoldable pub check_overrides : Text → List (ℕ × ℕ) → Verdict
  check_overrides s [] = safe
  check_overrides s ((a, b) ∷ spans) =
      let rest = check_overrides s spans in
      if R.has_verdict (window s a b) then override_near_verdict (window s a b) else rest

  -- without a schema
  unfoldable pub validate_verify_output : Text → Text → Verdict
  unfolding check_canary_reflected check_overrides
  validate_verify_output output canary =
      if check_canary_reflected output canary
      then canary_reflected
      else check_overrides output (R.override_spans output)
