-- ===== src/Extraction/Braces.antt =====
-- engine/extraction.py: `extract_braced_body`. A text is the list of its code points.
pub mod Grammar
pub mod Exact
pub mod Found
pub mod Sound
use autonomy_engine.Base.{
  ℕ, suc, ◌+◌, ◌-◌, Option, none, some, List, [], ◌∷◌, Bool, true, false, eqb, drop, take,
  if◌then◌else◌,
}
use autonomy_engine.World.{Result, ok, raise, failure, value_error}

-- the code points of { } " ' ` \
abbrev pub open_brace : ℕ
open_brace = 123

abbrev pub close_brace : ℕ
close_brace = 125

abbrev pub backslash : ℕ
backslash = 92

-- ch in ('"', "'", "`")
abbrev pub is_quote : ℕ → Bool
is_quote ch = if eqb ch 34 then true else if eqb ch 39 then true else eqb ch 96

-- The variables of the loop. The first character is an opening brace, so `depth` is positive from
-- then on.
pub record Scan : Type 0 where
  pub depth : ℕ
  pub in_string : Option ℕ
  pub escape_next : Bool

abbrev pub at_depth : ℕ → Scan
at_depth d = record { depth = d; in_string = none; escape_next = false }

-- the brace counts; `none` where the loop returns
unfoldable pub count_brace : Scan → ℕ → Option Scan
count_brace s ch =
    if eqb ch open_brace
    then some (record s { depth = suc s.depth })
    else if eqb ch close_brace
    then (if eqb s.depth 1 then none else some (record s { depth = s.depth - 1 }))
    else some s

unfoldable pub outside : Scan → ℕ → Option Scan
unfolding count_brace
outside s ch = if is_quote ch then some (record s { in_string = some ch }) else count_brace s ch

unfoldable pub unescaped : Scan → ℕ → Option Scan
unfolding outside
unescaped s ch = elim s.in_string [
  | some q ↦ if eqb ch q then some (record s { in_string = none }) else some s
  | none ↦ outside s ch
]

-- One round of the loop.
unfoldable pub scan_char : Scan → ℕ → Option Scan
unfolding unescaped
scan_char s ch =
    if s.escape_next
    then some (record s { escape_next = false })
    else if eqb ch backslash
    then some (record s { escape_next = true })
    else unescaped s ch

-- The loop, from position `i`: the position of the closing brace.
unfoldable pub scan : List ℕ → ℕ → Scan → Option ℕ
unfolding scan_char
scan [] i s = none
scan (ch ∷ chs) i s = elim (scan_char s ch) [ none ↦ some i | some s' ↦ scan chs (suc i) s' ]

-- text[start_pos : i + 1], for the text from `start_pos` on
unfoldable pub body_at : List ℕ → ℕ → Option ℕ → Result (List ℕ)
body_at rest start_pos none = raise (failure value_error "Unmatched '{'")
body_at rest start_pos (some i) = ok (take (suc i - start_pos) rest)

unfoldable pub extract_from : List ℕ → ℕ → Result (List ℕ)
unfolding scan body_at
extract_from [] start_pos = raise (failure value_error "Expected '{'")
extract_from (ch ∷ chs) start_pos =
    if eqb ch open_brace
    then body_at (ch ∷ chs) start_pos (scan (ch ∷ chs) start_pos (at_depth 0))
    else raise (failure value_error "Expected '{'")

unfoldable pub extract_braced_body : List ℕ → ℕ → Result (List ℕ)
unfolding extract_from
extract_braced_body text start_pos = extract_from (drop start_pos text) start_pos
