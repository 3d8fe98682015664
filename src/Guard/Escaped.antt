-- ===== src/Guard/Escaped.antt =====
-- engine/prompt_guard.py: the body between the tags of `sanitize_untrusted`.
use autonomy_engine.Base.{
  ℕ, zero, suc, ◌-◌, ◌≡◌, refl, ◌∙◌, Option, [], ◌∷◌, ◌++◌, true, false, eqb, length, or_default,
  All, arith, Bool-cases, inl, inr,
}
use mathlib.Core.List.{append_assoc}
use autonomy_engine.World.{ok}
use autonomy_engine.Guard.{
  Text, begins, occurs, replace_at, replace, is_word_end, is_tag, nested, open_tag, close_tag,
  escaped_open, escaped_close, escape_body, strip_null, strip_controls, sanitize_untrusted,
}

-- no character is an opening bracket
abbrev NoBracket : Text → Type 0
NoBracket = All (λ c. eqb c b'<' ≡ false)

begins-append : (a x y : Text) → begins (a ++ x) (a ++ y) ≡ begins x y
begins-append [] x y = refl
begins-append (c ∷ a) x y = ground (arith, begins-append a x y)

append-NoBracket : (a b : Text) → NoBracket a → NoBracket b → NoBracket (a ++ b)
append-NoBracket [] b h k = k
append-NoBracket (c ∷ a) b (p, h) k = (p, append-NoBracket a b h k)

module _ (old n : Text) where
  -- What begins the replaced text without a bracket began the text before.
  begins-replaced :
      (q s : Text)
      → NoBracket q
      → begins (replace_at old (b'<' ∷ n) 0 s) q ≡ true
      → begins s q ≡ true
  unfolding replace_at
  begins-replaced [] s free h = refl
  begins-replaced (d ∷ q) [] free h = cc h
  begins-replaced (d ∷ q) (c ∷ s) (p, free) h = elim (Bool-cases (begins (c ∷ s) old)) [
    | inl found ↦ let h' = rw found at h in absurd (ground (arith, h', p))
    | inr other ↦ let h' = rw other at h in ground (arith, h', begins-replaced q s free)
  ]

  -- Where `o` stands, `old` stands.
  abbrev Guarded : Text → Text → Type 0
  Guarded o [] = Unit
  Guarded o (c ∷ s) = (begins (c ∷ s) o ≡ true → begins (c ∷ s) old ≡ true) × Guarded o s

  occurs-append : (q a t : Text) → NoBracket a → occurs (b'<' ∷ q) (a ++ t) ≡ occurs (b'<' ∷ q) t
  occurs-append q [] t free = refl
  occurs-append q (c ∷ a) t (p, free) = ground (arith, occurs-append q a t free, p)

  occurs-replaced :
      (q : Text) (i : ℕ) (s : Text)
      → NoBracket q
      → NoBracket n
      → ((t : Text) → begins ((b'<' ∷ n) ++ t) (b'<' ∷ q) ≡ false)
      → Guarded (b'<' ∷ q) s
      → occurs (b'<' ∷ q) (replace_at old (b'<' ∷ n) i s) ≡ false
  unfolding replace_at
  occurs-replaced q i [] free free' apart g = refl
  occurs-replaced q (suc i) (c ∷ s) free free' apart (here, g) =
      occurs-replaced q i s free free' apart g
  occurs-replaced q zero (c ∷ s) free free' apart (here, g) =
      elim (Bool-cases (begins (c ∷ s) old)) [
        | inl found ↦
            let after = replace_at old (b'<' ∷ n) (length old - 1) s in
            rw found (
              rw (apart after) (
                occurs-append q n after free'
                ∙ occurs-replaced q (length old - 1) s free free' apart g))
        | inr other ↦
            let rest = occurs-replaced q zero s free free' apart g in
            rw other (ground (arith, here, begins-replaced q s free, other, rest))
      ]

-- The tag of a letter and word characters.
is_word_end-NoBracket : (s : Text) → is_word_end s ≡ true → NoBracket s
unfolding is_word_end
is_word_end-NoBracket [] h = tt
is_word_end-NoBracket (c ∷ []) h = (ground (arith, h), tt)
is_word_end-NoBracket (c ∷ d ∷ s) h =
    (ground (arith, h), is_word_end-NoBracket (d ∷ s) (ground (arith, h)))

is_tag-NoBracket : (s : Text) → is_tag s ≡ true → NoBracket s
unfolding is_tag
is_tag-NoBracket [] h = tt
is_tag-NoBracket (c ∷ s) h = (ground (arith, h), is_word_end-NoBracket s (ground (arith, h)))

Guarded-self : (o s : Text) → Guarded o [] o s
Guarded-self o [] = tt
Guarded-self o (c ∷ s) = (λ h. h, Guarded-self o s)

absent-Guarded : (old o s : Text) → occurs o s ≡ false → Guarded old [] o s
absent-Guarded old o [] h = tt
absent-Guarded old o (c ∷ s) h =
    (λ b. absurd (ground (arith, b, h)), absent-Guarded old o s (ground (arith, h)))

-- An escaped tag is not a tag, whatever comes after it.
escaped_differs : (tag t : Text) → begins ((tag ++ nested) ++ t) (tag ++ (b'>' ∷ [])) ≡ false
escaped_differs tag t = rw (append_assoc tag nested t) (begins-append tag (nested ++ t) (b'>' ∷ []))

close_no_open :
    (tag t : Text) → is_tag tag ≡ true → begins (escaped_close tag ++ t) (open_tag tag) ≡ false
unfolding is_tag
close_no_open [] t h = cc h
close_no_open (c ∷ tag) t h = ground (arith, h)

module _ (tag : Text) (ok_tag : is_tag tag ≡ true) where
  ends-NoBracket : NoBracket (tag ++ (b'>' ∷ []))
  ends-NoBracket = append-NoBracket tag (b'>' ∷ []) (is_tag-NoBracket tag ok_tag) (refl, tt)

  nested-NoBracket : NoBracket (tag ++ nested)
  nested-NoBracket =
      append-NoBracket tag nested (is_tag-NoBracket tag ok_tag)
        (refl, (refl, (refl, (refl, (refl, (refl, (refl, (refl, tt))))))))

  escape-no_open : (s : Text) → occurs (open_tag tag) (escape_body tag s) ≡ false
  unfolding escape_body replace
  escape-no_open s =
      let first = replace_at (open_tag tag) (escaped_open tag) 0 (strip_null (strip_controls s)) in
      let gone =
        occurs-replaced (open_tag tag) (tag ++ nested) (tag ++ (b'>' ∷ [])) 0
          (strip_null (strip_controls s)) ends-NoBracket nested-NoBracket (escaped_differs tag)
          (Guarded-self (open_tag tag) (strip_null (strip_controls s))) in
      occurs-replaced (close_tag tag) (b'/' ∷ (tag ++ nested)) (tag ++ (b'>' ∷ [])) 0 first
        ends-NoBracket (refl, nested-NoBracket) (λ t. close_no_open tag t ok_tag)
        (absent-Guarded (close_tag tag) (open_tag tag) first gone)

  escape-no_close : (s : Text) → occurs (close_tag tag) (escape_body tag s) ≡ false
  unfolding escape_body replace
  escape-no_close s =
      let first = replace_at (open_tag tag) (escaped_open tag) 0 (strip_null (strip_controls s)) in
      occurs-replaced (close_tag tag) (b'/' ∷ (tag ++ nested)) (b'/' ∷ (tag ++ (b'>' ∷ []))) 0 first
        (refl, ends-NoBracket) (refl, nested-NoBracket) (escaped_differs tag)
        (Guarded-self (close_tag tag) first)

  -- For a valid tag and any text, `sanitize_untrusted` returns the opening tag, a body and
  -- the closing tag, and neither the opening nor the closing tag occurs in the body.
  pub sanitize-escaped :
      (text : Option Text)
      → (body : Text) × (sanitize_untrusted text tag ≡ ok (open_tag tag ++ (body ++ close_tag tag)))
        × (occurs (open_tag tag) body ≡ false)
        × (occurs (close_tag tag) body ≡ false)
  unfolding sanitize_untrusted
  sanitize-escaped text =
      let s = or_default [] text in
      (escape_body tag s, rw ok_tag refl, escape-no_open s, escape-no_close s)
