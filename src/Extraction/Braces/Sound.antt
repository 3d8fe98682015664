-- ===== src/Extraction/Braces/Sound.antt =====
-- What the scanner takes out, in terms of the grammar.
use autonomy_engine.Base.{
  ℕ, suc, zero, ◌-◌, ◌≡◌, ◌≢◌, inl, inr, refl, sym, ap, subst, ◌∙◌, Option, none, some, List, [],
  ◌∷◌, ◌++◌, Bool, true, false, arith, drop, take, eqb-cases, Bool-cases,
}
use autonomy_engine.World.{ok}
use autonomy_engine.Extraction.Braces.{
  open_brace, close_brace, backslash, is_quote, at_depth, scan_char, scan, body_at, extract_from,
  extract_braced_body,
}
use autonomy_engine.Extraction.Braces.Grammar.{IsPlain, Quoted, Balanced}
use autonomy_engine.Extraction.Braces.Exact.{
  in_mode, scan_next, scan_stop, escape-begins, escape-ends, quoted_char, quote-begins, quote-ends,
  plain_char, brace-opens, brace-closes, brace-returns, take-body,
}
use autonomy_engine.Extraction.Braces.Found.{
  Tail, Unescaped, Found, Tail-prepend, Tail-block, Tail-string, escape-Unescaped,
}

-- a state of the loop inside the outermost block: `q` is a quote
abbrev IsMode : Option ℕ → Type 0
IsMode none = Unit
IsMode (some q) = is_quote q ≡ true

-- what the loop finds from each state
abbrev Finds : List ℕ → Type 0
Finds cs =
    (i d j : ℕ) (q : Option ℕ) (e : Bool)
    → IsMode q
    → scan cs i (in_mode (suc d) q e) ≡ some j
    → Found d q e cs i j

module _ (c : ℕ) (cs : List ℕ) (ih : Finds cs) (i d j : ℕ) where
  found_quoted :
      (q : ℕ)
      → is_quote q ≡ true
      → c ≢ backslash
      → scan (c ∷ cs) i (in_mode (suc d) (some q) false) ≡ some j
      → Unescaped d (some q) (c ∷ cs) i j
  found_quoted q quote nb h = elim (eqb-cases c q) [
    | inl same ↦
        let ends : scan_char (in_mode (suc d) (some q) false) c ≡ some (at_depth (suc d)) =
          subst (λ x. scan_char (in_mode (suc d) (some q) false) x ≡ some (at_depth (suc d)))
            (sym same) (quote-ends (suc d) q quote) in
        (
          [],
          cs,
          ap (λ x. x ∷ cs) same,
          Quoted.done,
          subst (λ k. Tail d cs k j) (omega arith)
              (ih (suc i) d j none false tt (sym (scan_next c cs i _ _ ends) ∙ h)),
        )
    | inr nq ↦
        let (s, cs', e, hs, t) =
          ih (suc i) d j (some q) false quote
            (sym (scan_next c cs i _ _ (quoted_char (suc d) q c nq nb)) ∙ h) in
        (
          c ∷ s,
          cs',
          ap (λ l. c ∷ l) e,
          Quoted.char nq nb hs,
          subst (λ k. Tail d cs' k j) (omega arith) t,
        )
  ]

  found_close :
      (d : ℕ)
      → scan (close_brace ∷ cs) i (at_depth (suc d)) ≡ some j
      → Tail d (close_brace ∷ cs) i j
  found_close zero h =
      let e : some i ≡ some j = sym (scan_stop close_brace cs i (at_depth 1) brace-returns) ∙ h in
      let same : i ≡ j = cc in ([], cs, refl, Balanced.done, omega (arith, same))
  found_close (suc d) h =
      let (ys, rest, e, closes, m) =
        ih (suc i) d j none false tt (sym (scan_next close_brace cs i _ _ (brace-closes d)) ∙ h) in
      (
        close_brace ∷ ys,
        rest,
        ap (λ l. close_brace ∷ l) e,
        ([], ys, refl, Balanced.done, closes),
        omega (arith, m),
      )

  found_outside :
      c ≢ backslash
      → is_quote c ≡ false
      → scan (c ∷ cs) i (at_depth (suc d)) ≡ some j
      → Tail d (c ∷ cs) i j
  found_outside nb nq h = elim (eqb-cases c open_brace) [
    | inl opens ↦
        let h' = subst (λ x. scan (x ∷ cs) i (at_depth (suc d)) ≡ some j) opens h in
        subst (λ x. Tail d (x ∷ cs) i j) (sym opens)
          (Tail-block d cs i j (
            ih (suc i) (suc d) j none false tt
              (sym (scan_next open_brace cs i _ _ (brace-opens (suc d))) ∙ h')))
    | inr not_open ↦ elim (eqb-cases c close_brace) [
      | inl closes ↦
          subst (λ x. Tail d (x ∷ cs) i j) (sym closes)
            (found_close d (subst (λ x. scan (x ∷ cs) i (at_depth (suc d)) ≡ some j) closes h))
      | inr nc ↦
          let p : IsPlain c = record {
            no_backslash = nb;
            no_quote = nq;
            no_open = not_open;
            no_close = nc;
          } in
          Tail-prepend (c ∷ []) (λ ys. Balanced.char p) d cs i (suc i) j (omega arith)
            (ih (suc i) d j none false tt (sym (scan_next c cs i _ _ (plain_char (suc d) c p)) ∙ h))
    ]
  ]

  found-Unescaped :
      (q : Option ℕ)
      → IsMode q
      → c ≢ backslash
      → scan (c ∷ cs) i (in_mode (suc d) q false) ≡ some j
      → Unescaped d q (c ∷ cs) i j
  found-Unescaped (some q) m nb h = found_quoted q m nb h
  found-Unescaped none m nb h = elim (Bool-cases (is_quote c)) [
    | inl quote ↦ Tail-string d c cs i j quote (
        ih (suc i) d j (some c) false quote
          (sym (scan_next c cs i _ _ (quote-begins (suc d) c quote)) ∙ h))
    | inr unquoted ↦ found_outside nb unquoted h
  ]

  Found-later :
      (q : Option ℕ) (e : Bool)
      → IsMode q
      → scan (c ∷ cs) i (in_mode (suc d) q e) ≡ some j
      → Found d q e (c ∷ cs) i j
  Found-later q true m h = (
    c,
    cs,
    refl,
    ih (suc i) d j q false m (sym (scan_next c cs i _ _ (escape-ends (suc d) q c)) ∙ h),
  )
  Found-later q false m h = elim (eqb-cases c backslash) [
    | inl hides ↦
        let h' = subst (λ x. scan (x ∷ cs) i (in_mode (suc d) q false) ≡ some j) hides h in
        subst (λ x. Unescaped d q (x ∷ cs) i j) (sym hides)
          (escape-Unescaped d q cs i j (
            ih (suc i) d j q true m
              (sym (scan_next backslash cs i _ _ (escape-begins (suc d) q)) ∙ h')))
    | inr nb ↦ found-Unescaped q m nb h
  ]

scan-Finds : (cs : List ℕ) → Finds cs
scan-Finds [] i d j q e m h = absurd (unfold scan in cc)
scan-Finds (c ∷ cs) i d j q e m h = Found-later c cs (scan-Finds cs) i d j q e m h

scan_from :
    (chs : List ℕ) (n j : ℕ)
    → scan (open_brace ∷ chs) n (at_depth 0) ≡ some j
    → Tail 0 chs (suc n) j
scan_from chs n j h =
    scan-Finds chs (suc n) 0 j none false tt
      (sym (scan_next open_brace chs n _ _ (brace-opens 0)) ∙ h)

-- the text from the start, as braces around a balanced body
abbrev pub Body : List ℕ → List ℕ → Type 0
Body from body =
    (ys : List ℕ) × (rest : List ℕ) × (from ≡ open_brace ∷ ys ++ close_brace ∷ rest)
    × Balanced ys
    × (body ≡ open_brace ∷ ys ++ close_brace ∷ [])

body_at-Body :
    (chs : List ℕ) (n : ℕ) (body : List ℕ) (o : Option ℕ)
    → scan (open_brace ∷ chs) n (at_depth 0) ≡ o
    → body_at (open_brace ∷ chs) n o ≡ ok body
    → Body (open_brace ∷ chs) body
unfolding body_at
body_at-Body chs n body none s h = cc
body_at-Body chs n body (some j) s h =
    let (ys, rest, e, balanced, m) = scan_from chs n j s in
    let taken : take (suc j - n) (open_brace ∷ chs) ≡ open_brace ∷ ys ++ close_brace ∷ [] =
      ap (λ l. take (suc j - n) (open_brace ∷ l)) e
      ∙ ap (λ k. take (suc k - n) (open_brace ∷ ys ++ close_brace ∷ rest)) m
      ∙ take-body ys rest n in
    let same : take (suc j - n) (open_brace ∷ chs) ≡ body = cc in
    (ys, rest, ap (λ l. open_brace ∷ l) e, balanced, sym same ∙ taken)

extract_from-Body :
    (from : List ℕ) (n : ℕ) (body : List ℕ) → extract_from from n ≡ ok body → Body from body
unfolding extract_from
extract_from-Body [] n body h = cc
extract_from-Body (c ∷ chs) n body h = elim (eqb-cases c open_brace) [
  | inl opens ↦
      subst (λ x. Body (x ∷ chs) body) (sym opens)
        (body_at-Body chs n body _ refl (subst (λ x. extract_from (x ∷ chs) n ≡ ok body) opens h))
  | inr not_open ↦ absurd (ground arith)
]

-- When `extract_braced_body` returns, the text has at that position an opening brace, then
-- balanced text, then a closing brace, and this is what it returned; balanced text is made of
-- plain characters, escapes, string literals in one of three quotes, and balanced blocks in
-- braces.
pub extract-Body :
    (text : List ℕ) (start_pos : ℕ) (body : List ℕ)
    → extract_braced_body text start_pos ≡ ok body
    → Body (drop start_pos text) body
unfolding extract_braced_body
extract-Body text start_pos body h = extract_from-Body (drop start_pos text) start_pos body h
