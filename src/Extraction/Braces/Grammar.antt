-- ===== src/Extraction/Braces/Grammar.antt =====
-- What stands between two matching braces, as a grammar: independent of the scanner.
use autonomy_engine.Base.{ℕ, ◌≡◌, ◌≢◌, List, [], ◌∷◌, ◌++◌, true, false}
use autonomy_engine.Extraction.Braces.{open_brace, close_brace, backslash, is_quote}

-- A character that is neither a brace nor a quote nor a backslash.
pub record IsPlain (c : ℕ) : Type 0 where
  pub no_backslash : c ≢ backslash
  pub no_quote : is_quote c ≡ false
  pub no_open : c ≢ open_brace
  pub no_close : c ≢ close_brace

-- The text of a string literal in quotes `q`, which a backslash can hide.
pub data Quoted (q : ℕ) : List ℕ → Type 0 where
  done : Quoted q []
  char : {c : ℕ} {cs : List ℕ} → c ≢ q → c ≢ backslash → Quoted q cs → Quoted q (c ∷ cs)
  escape : (c : ℕ) {cs : List ℕ} → Quoted q cs → Quoted q (backslash ∷ c ∷ cs)

-- Balanced text: plain characters, escapes, string literals and blocks in braces.
pub data Balanced : List ℕ → Type 0 where
  done : Balanced []
  char : {c : ℕ} {cs : List ℕ} → IsPlain c → Balanced cs → Balanced (c ∷ cs)
  escape : (c : ℕ) {cs : List ℕ} → Balanced cs → Balanced (backslash ∷ c ∷ cs)
  string :
      {q : ℕ} {s cs : List ℕ}
      → is_quote q ≡ true
      → Quoted q s
      → Balanced cs
      → Balanced (q ∷ s ++ q ∷ cs)
  block : {b cs : List ℕ} → Balanced b → Balanced cs → Balanced (open_brace ∷ b ++ close_brace ∷ cs)
