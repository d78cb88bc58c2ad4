-- ===== src/Text/Laws.antt =====
-- Laws of the string operations: equality of texts is decided, and `trim`, `split` and `split_once`
-- on texts that are built without the characters that they look for.
use fresnica.Prelude.{
  ℕ, ◌≡◌, refl, ◌≢◌, ◌↔◌, true, false, some, List, [], ◌∷◌, ◌++◌, reverse, arith, Text, All,
  Bool-cases, ◌⊎◌, inl, inr, ap, sym, ◌∙◌, All-reverse,
}
use mathlib.Core.List.{reverse-reverse, reverse-cons, reverse-append}
use fresnica.Text.{text_eq, is_whitespace, trim_start, trim, split_once, split, push_first}

pub text_eq_sound : (s t : Text) → text_eq s t ≡ true → s ≡ t
unfolding text_eq
text_eq_sound [] [] h = refl
text_eq_sound [] (d ∷ t) h = cc
text_eq_sound (c ∷ s) [] h = cc
text_eq_sound (c ∷ s) (d ∷ t) h = ground (arith, text_eq_sound s t)

pub text_eq_refl : (s : Text) → text_eq s s ≡ true
unfolding text_eq
text_eq_refl [] = refl
text_eq_refl (c ∷ s) = ground (arith, text_eq_refl s)

pub text_eq_complete : (s t : Text) → s ≡ t → text_eq s t ≡ true
text_eq_complete s t h = rw h (text_eq_refl t)

pub text_eq_iff : (s t : Text) → (text_eq s t ≡ true) ↔ (s ≡ t)
text_eq_iff s t = (text_eq_sound s t, text_eq_complete s t)

-- Texts with no whitespace and texts without a given character.
abbrev pub IsTight : Text → Type 0
IsTight = All (λ c. is_whitespace c ≡ false)

abbrev pub Lacks : ℕ → Text → Type 0
Lacks d = All (λ c. c ≢ d)

trim_start-tight : (s : Text) → IsTight s → trim_start s ≡ s
unfolding trim_start
trim_start-tight [] h = refl
trim_start-tight (c ∷ s) (hc, hs) = rw (hc, trim_start)

pub trim-tight : (s : Text) → IsTight s → trim s ≡ s
unfolding trim
trim-tight s h =
    rw (trim_start-tight s h, trim_start-tight (reverse s) (All-reverse _ s h)) (reverse-reverse s)

trim_start-append :
    (s : Text) (c : ℕ) → is_whitespace c ≡ false → trim_start (s ++ c ∷ []) ≡ trim_start s ++ c ∷ []
unfolding trim_start
trim_start-append [] c h = rw (h, trim_start) refl
trim_start-append (d ∷ s) c h = elim (Bool-cases (is_whitespace d)) [
  | inl e ↦ rw (e, trim_start) (trim_start-append s c h)
  | inr e ↦ rw (e, trim_start) refl
]

-- Removing whitespace in front leaves nothing, or a text that begins with another character.
trim_start-cases :
    (s : Text)
    → (trim_start s ≡ [])
      ⊎ ((c : ℕ) × (t : Text) × (trim_start s ≡ c ∷ t) × (is_whitespace c ≡ false))
unfolding trim_start
trim_start-cases [] = inl refl
trim_start-cases (d ∷ s) = elim (Bool-cases (is_whitespace d)) [
  | inl e ↦ rw (e, trim_start) (trim_start-cases s)
  | inr e ↦ rw (e, trim_start) (inr (d, s, refl, e))
]

kept_front : (c : ℕ) (t : Text) → is_whitespace c ≡ false → trim_start (c ∷ t) ≡ c ∷ t
unfolding trim_start
kept_front c t h = rw (h, trim_start) refl

trim_start-trim_start : (s : Text) → trim_start (trim_start s) ≡ trim_start s
unfolding trim_start
trim_start-trim_start s = elim (trim_start-cases s) [
  | inl e ↦ ap trim_start e ∙ sym e
  | inr (c, t, e, h) ↦ ap trim_start e ∙ kept_front c t h ∙ sym e
]

-- The rest of a trimmed text, behind its first character.
kept : Text → Text
kept t = trim_start (reverse t)

trim-cons :
    (s t : Text) (c : ℕ)
    → trim_start s ≡ c ∷ t
    → is_whitespace c ≡ false
    → trim s ≡ c ∷ reverse (kept t)
unfolding trim kept
trim-cons s t c e h = rw (e, reverse-cons, trim_start-append (reverse t) c h, reverse-append) refl

trim-nil : (s : Text) → trim_start s ≡ [] → trim s ≡ []
unfolding trim trim_start
trim-nil s e = ap (λ u. reverse (trim_start (reverse u))) e

pub trim-trim : (s : Text) → trim (trim s) ≡ trim s
unfolding trim_start kept
trim-trim s = elim (trim_start-cases s) [
  | inl e ↦
      let nothing : trim s ≡ [] = trim-nil s e in ap trim nothing ∙ trim-nil [] refl ∙ sym nothing
  | inr (c, t, e, h) ↦
      let once : trim s ≡ c ∷ reverse (kept t) = trim-cons s t c e h in
      let front : trim_start (c ∷ reverse (kept t)) ≡ c ∷ reverse (kept t) =
        kept_front c (reverse (kept t)) h in
      let twice : trim (c ∷ reverse (kept t)) ≡ c ∷ reverse (kept (reverse (kept t))) =
        trim-cons (c ∷ reverse (kept t)) (reverse (kept t)) c front h in
      let same : kept (reverse (kept t)) ≡ kept t =
        rw (reverse-reverse (kept t)) (trim_start-trim_start (reverse t)) in
      rw once (twice ∙ ap (λ u. c ∷ reverse u) same)
]

pub split-Lacks : (d : ℕ) (s : Text) → Lacks d s → split d s ≡ s ∷ []
unfolding split
split-Lacks d [] h = refl
split-Lacks d (c ∷ s) (hc, hs) = ground (arith, split-Lacks d s hs)

pub split-append : (d : ℕ) (s t : Text) → Lacks d s → split d (s ++ d ∷ t) ≡ s ∷ split d t
unfolding split
split-append d [] t h = ground arith
split-append d (c ∷ s) t (hc, hs) = ground (arith, split-append d s t hs)

pub split_once-append : (d : ℕ) (s t : Text) → Lacks d s → split_once d (s ++ d ∷ t) ≡ some (s, t)
unfolding split_once
split_once-append d [] t h = ground arith
split_once-append d (c ∷ s) t (hc, hs) = ground (arith, split_once-append d s t hs)

-- The parts of a split with the separator put back.
abbrev pub join : ℕ → List Text → Text
join d [] = []
join d (p ∷ []) = p
join d (p ∷ q ∷ ps) = p ++ d ∷ join d (q ∷ ps)

join-push_first : (d c : ℕ) (ps : List Text) → join d (push_first c ps) ≡ c ∷ join d ps
join-push_first d c [] = refl
join-push_first d c (p ∷ []) = refl
join-push_first d c (p ∷ q ∷ ps) = refl

push_first-ne-nil : (c : ℕ) (ps : List Text) → push_first c ps ≢ []
push_first-ne-nil c [] h = cc
push_first-ne-nil c (p ∷ ps) h = cc

split-ne-nil : (d : ℕ) (s : Text) → split d s ≢ []
unfolding split
split-ne-nil d [] = ground arith
split-ne-nil d (c ∷ s) = ground (arith, push_first-ne-nil c (split d s))

join-nil-cons : (d : ℕ) (ps : List Text) → ps ≢ [] → join d ([] ∷ ps) ≡ d ∷ join d ps
join-nil-cons d [] h = absurd (h refl)
join-nil-cons d (p ∷ ps) h = refl

pub join-split : (d : ℕ) (s : Text) → join d (split d s) ≡ s
unfolding split
join-split d [] = refl
join-split d (c ∷ s) = ground (
  arith,
  join-split d s,
  join-push_first d c (split d s),
  join-nil-cons d (split d s) (split-ne-nil d s),
)
