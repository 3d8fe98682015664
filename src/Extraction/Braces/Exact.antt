-- ===== src/Extraction/Braces/Exact.antt =====
-- engine/extraction.py, `extract_braced_body`: what one character does, and text of the grammar.
use autonomy_engine.Base.{
  ℕ, suc, ◌+◌, ◌-◌, ◌≡◌, ◌≢◌, refl, sym, ap, ◌∙◌, Option, none, some, List, [], ◌∷◌, ◌++◌, Bool,
  true, false, arith, length, take, drop-append, take-append, length-append,
}
use mathlib.Core.List.{append_assoc}
use autonomy_engine.World.{ok}
use autonomy_engine.Extraction.Braces.{
  open_brace, close_brace, backslash, is_quote, Scan, at_depth, count_brace, outside, unescaped,
  scan_char, scan, body_at, extract_from, extract_braced_body,
}
use autonomy_engine.Extraction.Braces.Grammar.{IsPlain, Quoted, Balanced}

abbrev pub in_mode : ℕ → Option ℕ → Bool → Scan
in_mode d q e = record { depth = d; in_string = q; escape_next = e }

abbrev pub in_quotes : ℕ → ℕ → Scan
in_quotes d q = record { depth = d; in_string = some q; escape_next = false }

pub scan_next :
    (c : ℕ) (cs : List ℕ) (i : ℕ) (s s' : Scan)
    → scan_char s c ≡ some s'
    → scan (c ∷ cs) i s ≡ scan cs (suc i) s'
unfolding scan
scan_next c cs i s s' h = rw (h, scan) refl

pub scan_stop :
    (c : ℕ) (cs : List ℕ) (i : ℕ) (s : Scan) → scan_char s c ≡ none → scan (c ∷ cs) i s ≡ some i
unfolding scan
scan_stop c cs i s h = rw (h, scan) refl

-- what one character does
module _ (d : ℕ) where
  pub escape-begins :
      (q : Option ℕ) → scan_char (in_mode d q false) backslash ≡ some (in_mode d q true)
  unfolding scan_char
  escape-begins q = refl

  pub escape-ends :
      (q : Option ℕ) (c : ℕ) → scan_char (in_mode d q true) c ≡ some (in_mode d q false)
  unfolding scan_char
  escape-ends q c = refl

  pub quoted_char :
      (q c : ℕ) → c ≢ q → c ≢ backslash → scan_char (in_quotes d q) c ≡ some (in_quotes d q)
  unfolding scan_char unescaped
  quoted_char q c nq nb = ground arith

  pub quote-ends : (q : ℕ) → is_quote q ≡ true → scan_char (in_quotes d q) q ≡ some (at_depth d)
  unfolding scan_char unescaped
  quote-ends q h = ground arith

  pub quote-begins : (q : ℕ) → is_quote q ≡ true → scan_char (at_depth d) q ≡ some (in_quotes d q)
  unfolding scan_char unescaped outside
  quote-begins q h = ground arith

  pub plain_char : (c : ℕ) → IsPlain c → scan_char (at_depth d) c ≡ some (at_depth d)
  unfolding scan_char unescaped outside count_brace
  plain_char c p = ground (arith, p.no_backslash, p.no_quote, p.no_open, p.no_close)

  pub brace-opens : scan_char (at_depth d) open_brace ≡ some (at_depth (suc d))
  unfolding scan_char unescaped outside count_brace
  brace-opens = refl

  pub brace-closes : scan_char (at_depth (suc (suc d))) close_brace ≡ some (at_depth (suc d))
  unfolding scan_char unescaped outside count_brace
  brace-closes = ground arith

pub brace-returns : scan_char (at_depth 1) close_brace ≡ none
unfolding scan_char unescaped outside count_brace
brace-returns = refl

scan-Quoted :
    (d q : ℕ) (s rest : List ℕ) (i : ℕ)
    → is_quote q ≡ true
    → Quoted q s
    → scan (s ++ q ∷ rest) i (in_quotes d q) ≡ scan rest (i + length s + 1) (at_depth d)
scan-Quoted d q s rest i quote Quoted.done =
    scan_next q rest i (in_quotes d q) (at_depth d) (quote-ends d q quote)
    ∙ ap (λ k. scan rest k (at_depth d)) (omega arith)
scan-Quoted d q s rest i quote (Quoted.char {c} {cs} nq nb h) =
    scan_next c (cs ++ q ∷ rest) i (in_quotes d q) (in_quotes d q) (quoted_char d q c nq nb)
    ∙ scan-Quoted d q cs rest (suc i) quote h
    ∙ ap (λ k. scan rest k (at_depth d)) (omega arith)
scan-Quoted d q s rest i quote (Quoted.escape c {cs} h) =
    scan_next backslash (c ∷ cs ++ q ∷ rest) i (in_quotes d q) (in_mode d (some q) true)
      (escape-begins d (some q))
    ∙ scan_next c (cs ++ q ∷ rest) (suc i) (in_mode d (some q) true) (in_quotes d q)
        (escape-ends d (some q) c)
    ∙ scan-Quoted d q cs rest (suc (suc i)) quote h
    ∙ ap (λ k. scan rest k (at_depth d)) (omega arith)

-- The scanner passes over balanced text.
scan-Balanced :
    (d : ℕ) (ys rest : List ℕ) (i : ℕ)
    → Balanced ys
    → scan (ys ++ rest) i (at_depth (suc d)) ≡ scan rest (i + length ys) (at_depth (suc d))
scan-Balanced d ys rest i Balanced.done = ap (λ k. scan rest k (at_depth (suc d))) (omega arith)
scan-Balanced d ys rest i (Balanced.char {c} {cs} p h) =
    scan_next c (cs ++ rest) i (at_depth (suc d)) (at_depth (suc d)) (plain_char (suc d) c p)
    ∙ scan-Balanced d cs rest (suc i) h
    ∙ ap (λ k. scan rest k (at_depth (suc d))) (omega arith)
scan-Balanced d ys rest i (Balanced.escape c {cs} h) =
    scan_next backslash (c ∷ cs ++ rest) i (at_depth (suc d)) (in_mode (suc d) none true)
      (escape-begins (suc d) none)
    ∙ scan_next c (cs ++ rest) (suc i) (in_mode (suc d) none true) (at_depth (suc d))
        (escape-ends (suc d) none c)
    ∙ scan-Balanced d cs rest (suc (suc i)) h
    ∙ ap (λ k. scan rest k (at_depth (suc d))) (omega arith)
scan-Balanced d ys rest i (Balanced.string {q} {s} {cs} quote t h) =
    scan_next q ((s ++ q ∷ cs) ++ rest) i (at_depth (suc d)) (in_quotes (suc d) q)
      (quote-begins (suc d) q quote)
    ∙ ap (λ l. scan l (suc i) (in_quotes (suc d) q)) (append_assoc s (q ∷ cs) rest)
    ∙ scan-Quoted (suc d) q s (cs ++ rest) (suc i) quote t
    ∙ scan-Balanced d cs rest (suc i + length s + 1) h
    ∙ ap (λ k. scan rest k (at_depth (suc d))) (omega (arith, length-append s (q ∷ cs)))
scan-Balanced d ys rest i (Balanced.block {b} {cs} inner h) =
    scan_next open_brace ((b ++ close_brace ∷ cs) ++ rest) i (at_depth (suc d))
      (at_depth (suc (suc d))) (brace-opens (suc d))
    ∙ ap (λ l. scan l (suc i) (at_depth (suc (suc d)))) (append_assoc b (close_brace ∷ cs) rest)
    ∙ scan-Balanced (suc d) b (close_brace ∷ cs ++ rest) (suc i) inner
    ∙ scan_next close_brace (cs ++ rest) (suc i + length b) (at_depth (suc (suc d)))
        (at_depth (suc d)) (brace-closes d)
    ∙ scan-Balanced d cs rest (suc (suc i + length b)) h
    ∙ ap (λ k. scan rest k (at_depth (suc d))) (omega (arith, length-append b (close_brace ∷ cs)))

scan-body :
    (ys rest : List ℕ) (n : ℕ)
    → Balanced ys
    → scan (open_brace ∷ ys ++ close_brace ∷ rest) n (at_depth 0) ≡ some (suc n + length ys)
scan-body ys rest n h =
    scan_next open_brace (ys ++ close_brace ∷ rest) n (at_depth 0) (at_depth 1) (brace-opens 0)
    ∙ scan-Balanced 0 ys (close_brace ∷ rest) (suc n) h
    ∙ scan_stop close_brace rest (suc n + length ys) (at_depth 1) brace-returns

pub take-body :
    (ys rest : List ℕ) (n : ℕ)
    → take (suc (suc n + length ys) - n) (open_brace ∷ ys ++ close_brace ∷ rest)
      ≡ open_brace ∷ ys ++ close_brace ∷ []
take-body ys rest n =
    let m : suc (suc n + length ys) - n ≡ length (open_brace ∷ ys ++ close_brace ∷ []) =
      omega (arith, length-append ys (close_brace ∷ [])) in
    ap (λ k. take k (open_brace ∷ ys ++ close_brace ∷ rest)) m
    ∙ ap (λ l. take (length (open_brace ∷ ys ++ close_brace ∷ [])) (open_brace ∷ l))
        (sym (append_assoc ys (close_brace ∷ []) rest))
    ∙ take-append (open_brace ∷ ys ++ close_brace ∷ []) rest

-- For a balanced text in braces, anywhere in a text, `extract_braced_body` at the opening
-- brace returns the braces and all that is between them.
pub extract-Balanced :
    (before ys rest : List ℕ)
    → Balanced ys
    → extract_braced_body (before ++ (open_brace ∷ ys ++ close_brace ∷ rest)) (length before)
      ≡ ok (open_brace ∷ ys ++ close_brace ∷ [])
unfolding extract_braced_body extract_from
extract-Balanced before ys rest h =
    ap (λ l. extract_from l (length before))
      (drop-append before (open_brace ∷ ys ++ close_brace ∷ rest))
    ∙ ap (body_at (open_brace ∷ ys ++ close_brace ∷ rest) (length before))
        (scan-body ys rest (length before) h)
    ∙ ap ok (take-body ys rest (length before))
