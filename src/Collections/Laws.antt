-- ===== src/Collections/Laws.antt =====
-- Membership in the ordered collections, stated with no condition on the order of the list.
use fresnica.Prelude.{
  ◌≡◌, refl, true, false, ◌||◌, some, List, [], ◌∷◌, Text, arith, if◌then◌else◌, subst, All,
}
use fresnica.Text.{text_eq}
use fresnica.Text.Laws.{text_eq_iff}
use fresnica.Collections.{Ord, text_ord, contains, insert, is_subset, map_get, map_insert}

-- What is in `s` is in `t`.
abbrev pub Within : {A : Type 0} ⦃o : Ord A⦄ → List A → List A → Type 0
Within {A} s t = (a : A) → contains s a ≡ true → contains t a ≡ true

module _ {A : Type 0} ⦃o : Ord A⦄ where
  pub contains-insert :
      (a b : A) (s : List A) → contains (insert a s) b ≡ (o.eq a b || contains s b)
  unfolding contains insert
  contains-insert a b [] = refl
  contains-insert a b (c ∷ s) =
      ground (arith, contains-insert a b s, (o.eq_iff c a).0, (o.eq_iff a b).0)

  pub contains-insert_self : (a : A) (s : List A) → contains (insert a s) a ≡ true
  contains-insert_self a s = ground (arith, contains-insert a a s, (o.eq_iff a a).1 refl)

  pub insert-Within : (a : A) (s : List A) → Within s (insert a s)
  insert-Within a s b h = ground (arith, contains-insert a b s)

  pub contains-cons : (b : A) (s : List A) (a : A) → contains (b ∷ s) a ≡ (o.eq b a || contains s a)
  unfolding contains
  contains-cons b s a = refl

  pub contains-nil : (a : A) → contains [] a ≡ false
  unfolding contains
  contains-nil a = refl

  contains_of_eq :
      (t : List A) (a b : A) → o.eq b a ≡ true → contains t b ≡ true → contains t a ≡ true
  contains_of_eq t a b e h = subst (λ c. contains t c ≡ true) ((o.eq_iff b a).0 e) h

  pub is_subset_sound : (s t : List A) → is_subset s t ≡ true → Within s t
  unfolding is_subset
  is_subset_sound [] t h a m = cc (contains-nil a)
  is_subset_sound (b ∷ s) t h a m = ground (
    arith,
    contains-cons b s a,
    λ (r : is_subset s t ≡ true). is_subset_sound s t r a,
    contains_of_eq t a b,
  )

  pub is_subset_complete : (s t : List A) → Within s t → is_subset s t ≡ true
  unfolding is_subset
  is_subset_complete [] t h = refl
  is_subset_complete (b ∷ s) t h =
      let rest = is_subset_complete s t (λ a m. h a (ground (arith, contains-cons b s a))) in
      let first = h b (ground (arith, contains-cons b s b, (o.eq_iff b b).1 refl)) in ground arith

  pub is_subset-All : (s t : List A) → All (λ a. contains t a ≡ true) s → is_subset s t ≡ true
  unfolding is_subset
  is_subset-All [] t h = refl
  is_subset-All (b ∷ s) t (hb, hs) = ground (arith, is_subset-All s t hs)

module _ {V : Type 0} where
  pub map_get-insert :
      (k j : Text) (v : V) (m : List (Text × V))
      → map_get j (map_insert k v m) ≡ (if text_eq k j then some v else map_get j m)
  unfolding map_get map_insert
  map_get-insert k j v [] = refl
  map_get-insert k j v ((i, w) ∷ m) =
      ground (arith, map_get-insert k j v m, text_eq_iff k j, text_eq_iff i k, text_eq_iff i j)
