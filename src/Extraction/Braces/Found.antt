-- ===== src/Extraction/Braces/Found.antt =====
-- The text up to the closing brace, from each state of the scanner, in terms of the grammar.
use autonomy_engine.Base.{
  ℕ, suc, zero, ◌+◌, ◌≡◌, sym, ap, subst, ◌∙◌, Option, none, some, List, [], ◌∷◌, ◌++◌, Bool, true,
  false, arith, length, length-append,
}
use mathlib.Core.List.{append_assoc}
use autonomy_engine.Extraction.Braces.{open_brace, close_brace, backslash, is_quote}
use autonomy_engine.Extraction.Braces.Grammar.{Quoted, Balanced}

-- Text that closes `d` blocks, and then is balanced.
abbrev pub Closes : ℕ → List ℕ → Type 0
Closes zero ys = Balanced ys
Closes (suc d) ys =
    (a : List ℕ) × (b : List ℕ) × (ys ≡ a ++ close_brace ∷ b) × Balanced a × Closes d b

-- From position `i` the text closes `d + 1` blocks, the last at position `j`.
abbrev pub Tail : ℕ → List ℕ → ℕ → ℕ → Type 0
Tail d cs i j =
    (ys : List ℕ) × (rest : List ℕ) × (cs ≡ ys ++ close_brace ∷ rest)
    × Closes d ys
    × (j ≡ i + length ys)

abbrev pub Unescaped : ℕ → Option ℕ → List ℕ → ℕ → ℕ → Type 0
Unescaped d none cs i j = Tail d cs i j
Unescaped d (some q) cs i j =
    (s : List ℕ) × (cs' : List ℕ) × (cs ≡ s ++ q ∷ cs')
    × Quoted q s
    × Tail d cs' (i + length s + 1) j

abbrev pub Found : ℕ → Option ℕ → Bool → List ℕ → ℕ → ℕ → Type 0
Found d q false cs i j = Unescaped d q cs i j
Found d q true cs i j = (c : ℕ) × (cs' : List ℕ) × (cs ≡ c ∷ cs') × Unescaped d q cs' (suc i) j

pub Closes-prepend :
    (x : List ℕ)
    → ((ys : List ℕ) → Balanced ys → Balanced (x ++ ys))
    → (d : ℕ) (ys : List ℕ) → Closes d ys
    → Closes d (x ++ ys)
Closes-prepend x grow zero ys h = grow ys h
Closes-prepend x grow (suc d) ys (a, b, e, ha, hb) =
    (x ++ a, b, ap (λ l. x ++ l) e ∙ sym (append_assoc x a (close_brace ∷ b)), grow a ha, hb)

pub Tail-prepend :
    (x : List ℕ)
    → ((ys : List ℕ) → Balanced ys → Balanced (x ++ ys))
    → (d : ℕ) (cs : List ℕ) (i k j : ℕ) → k ≡ i + length x
    → Tail d cs k j
    → Tail d (x ++ cs) i j
Tail-prepend x grow d cs i k j n (ys, rest, e, h, m) = (
  x ++ ys,
  rest,
  ap (λ l. x ++ l) e ∙ sym (append_assoc x ys (close_brace ∷ rest)),
  Closes-prepend x grow d ys h,
  omega (arith, length-append x ys),
)

pub Tail-block :
    (d : ℕ) (cs : List ℕ) (i j : ℕ) → Tail (suc d) cs (suc i) j → Tail d (open_brace ∷ cs) i j
Tail-block d cs i j (ys, rest, e, (a, b, split, ha, hb), m) = (
  open_brace ∷ ys,
  rest,
  ap (λ l. open_brace ∷ l) e,
  subst (Closes d) (ap (λ l. open_brace ∷ l) (sym split)) (block d b hb),
  omega (arith, m),
)
  where
    block : (d : ℕ) (b : List ℕ) → Closes d b → Closes d (open_brace ∷ a ++ close_brace ∷ b)
    block d b h = subst (Closes d) (append_assoc (open_brace ∷ a) (close_brace ∷ []) b) (
        Closes-prepend (open_brace ∷ a ++ close_brace ∷ [])
          (λ ys hy.
            subst Balanced (sym (append_assoc (open_brace ∷ a) (close_brace ∷ []) ys))
              (Balanced.block ha hy))
          d b h)

-- a quote begins a string literal
pub Tail-string :
    (d q : ℕ) (cs : List ℕ) (i j : ℕ)
    → is_quote q ≡ true
    → Unescaped d (some q) cs (suc i) j
    → Tail d (q ∷ cs) i j
Tail-string d q cs i j quote (s, cs', e, hs, t) =
    subst (λ l. Tail d (q ∷ l) i j) (append_assoc s (q ∷ []) cs' ∙ sym e)
      (Tail-prepend (q ∷ s ++ q ∷ [])
        (λ ys hy.
          subst Balanced (ap (λ l. q ∷ l) (sym (append_assoc s (q ∷ []) ys)))
            (Balanced.string quote hs hy))
        d cs' i (suc i + length s + 1) j (omega (arith, length-append s (q ∷ []))) t)

-- a backslash and what it hides
pub escape-Unescaped :
    (d : ℕ) (q : Option ℕ) (cs : List ℕ) (i j : ℕ)
    → Found d q true cs (suc i) j
    → Unescaped d q (backslash ∷ cs) i j
escape-Unescaped d none cs i j (c, cs', e, t) =
    subst (λ l. Tail d (backslash ∷ l) i j) (sym e)
      (Tail-prepend (backslash ∷ c ∷ []) (λ ys. Balanced.escape c) d cs' i (suc (suc i)) j
        (omega arith) t)
escape-Unescaped d (some q) cs i j (c, cs', e, (s, cs'', e', hs, t)) = (
  backslash ∷ c ∷ s,
  cs'',
  ap (λ l. backslash ∷ l) (e ∙ ap (λ l. c ∷ l) e'),
  Quoted.escape c hs,
  subst (λ k. Tail d cs'' k j) (omega arith) t,
)
