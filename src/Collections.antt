-- ===== src/Collections.antt =====
-- Ordered sets and maps of Rust's standard library (`BTreeSet`, `BTreeMap`) as lists in the order
-- of iteration, over an interface for `Ord`.
pub mod Laws
use fresnica.Prelude.{
  ℕ, ◌+◌, ◌<◌, ◌≡◌, ◌↔◌, Bool, true, false, ◌&&◌, ◌||◌, Option, none, some, List, [], ◌∷◌, all, any,
  Text, ltb, ◌==◌, if◌then◌else◌,
}
use fresnica.Text.{text_eq}
use fresnica.Text.Laws.{text_eq_iff}

-- Equality and order of the elements. Only equality has a law: the order decides where an element
-- stands, never whether it is there.
pub record Ord (A : Type 0) : Type 0 where
  pub eq : A → A → Bool
  pub lt : A → A → Bool
  pub eq_iff : (a b : A) → (eq a b ≡ true) ↔ (a ≡ b)

-- The order of strings is that of their code points.
unfoldable pub text_lt : Text → Text → Bool
text_lt [] [] = false
text_lt [] (d ∷ t) = true
text_lt (c ∷ s) [] = false
text_lt (c ∷ s) (d ∷ t) = ltb c d || (c == d && text_lt s t)

instance abbrev pub text_ord : Ord Text
text_ord = record { eq = text_eq; lt = text_lt; eq_iff = text_eq_iff }

module _ {A : Type 0} ⦃o : Ord A⦄ where
  -- `BTreeSet::contains`
  unfoldable pub contains : List A → A → Bool
  contains [] a = false
  contains (b ∷ s) a = o.eq b a || contains s a

  -- `BTreeSet::insert`: the new set; the Boolean of Rust is `not (contains s a)`.
  unfoldable pub insert : A → List A → List A
  insert a [] = a ∷ []
  insert a (b ∷ s) =
      let rest = insert a s in if o.eq b a then b ∷ s else if o.lt a b then a ∷ b ∷ s else b ∷ rest

  -- `collect` into a set
  unfoldable pub collect : List A → List A
  collect [] = []
  collect (a ∷ l) = insert a (collect l)

  -- `BTreeSet::is_subset`
  unfoldable pub is_subset : List A → List A → Bool
  is_subset [] t = true
  is_subset (a ∷ s) t = contains t a && is_subset s t

module _ {V : Type 0} where
  -- `BTreeMap::get` with string keys
  unfoldable pub map_get : Text → List (Text × V) → Option V
  map_get k [] = none
  map_get k ((j, v) ∷ m) = if text_eq j k then some v else map_get k m

  -- `BTreeMap::insert`: the old value under the key is replaced.
  unfoldable pub map_insert : Text → V → List (Text × V) → List (Text × V)
  map_insert k v [] = (k, v) ∷ []
  map_insert k v ((j, w) ∷ m) =
      let rest = map_insert k v m in
      if text_eq j k then (j, v) ∷ m else if text_lt k j then (k, v) ∷ (j, w) ∷ m else (j, w) ∷ rest
