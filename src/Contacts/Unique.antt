-- ===== src/Contacts/Unique.antt =====
-- The contacts of a book are clean and have different keys, and stay so when one is added.
use fresnica.Prelude.{
  ◌≡◌, refl, true, false, not, Option, none, some, List, [], ◌∷◌, ◌++◌, any, find, All, Text,
  Outcome, ok, err, >>=-eq-ok, ok-injective, fail_if, fail_if-ok, arith, Bool-cases, inl, inr,
  subst,
}
use fresnica.Text.{text_eq, is_empty, trim}
use fresnica.Text.Laws.{trim-trim}
use fresnica.Account.{Strkey, is_classic_address}
use fresnica.Contacts.{
  Contact, clean_memo, or_malformed, empty_name, invalid_address, duplicate_names, name_key,
  normalize_contact, has_key, load_contacts, take_out,
}

pub clean_memo-clean_memo : (memo : Option Text) → clean_memo (clean_memo memo) ≡ clean_memo memo
unfolding clean_memo
clean_memo-clean_memo none = refl
clean_memo-clean_memo (some value) = elim (Bool-cases (is_empty (trim value))) [
  | inl e ↦ rw e refl
  | inr e ↦ rw e (rw (trim-trim value, e) refl)
]

or_malformed-ok :
    (outcome : Outcome Contact) {c : Contact} → or_malformed outcome ≡ ok c → outcome ≡ ok c
or_malformed-ok (ok a) h = h
or_malformed-ok (err e) h = cc

module _ (to_lowercase : Text → Text) (from_string : Text → Option Strkey) where
  -- A contact that normalisation leaves as it is.
  abbrev pub IsClean : Contact → Type 0
  IsClean c = normalize_contact to_lowercase from_string c.name c.address c.memo ≡ ok c

  abbrev pub key_of : Contact → Text
  key_of c = name_key to_lowercase from_string c.name

  -- What a normalised contact is.
  pub normal_parts :
      (name address : Text) (memo : Option Text) {c : Contact}
      → normalize_contact to_lowercase from_string name address memo ≡ ok c
      → (is_empty (trim name) ≡ false)
        × (not (is_classic_address from_string (trim address)) ≡ false)
        × (record { name = trim name; address = trim address; memo = clean_memo memo } ≡ c)
  unfolding normalize_contact
  normal_parts name address memo h =
      let (_, n, h₁) = >>=-eq-ok (fail_if (is_empty (trim name)) empty_name) _ h in
      let (_, a, h₂) =
        >>=-eq-ok (fail_if (not (is_classic_address from_string (trim address))) invalid_address) _
          h₁ in
      (fail_if-ok _ _ n, fail_if-ok _ _ a, ok-injective h₂)

  IsClean-normal :
      (name address : Text) (memo : Option Text)
      → is_empty (trim name) ≡ false
      → not (is_classic_address from_string (trim address)) ≡ false
      → IsClean (record { name = trim name; address = trim address; memo = clean_memo memo })
  unfolding normalize_contact
  IsClean-normal name address memo n a =
      rw (trim-trim name, trim-trim address, n, a, clean_memo-clean_memo memo) refl

  pub normalize_contact-IsClean :
      (name address : Text) (memo : Option Text) {c : Contact}
      → normalize_contact to_lowercase from_string name address memo ≡ ok c
      → IsClean c
  normalize_contact-IsClean name address memo h =
      let (n, a, same) = normal_parts name address memo h in
      subst IsClean same (IsClean-normal name address memo n a)

  -- No contact has the key of one before it, or one that was seen.
  unfoldable pub IsFresh : List Text → List Contact → Type 0
  IsFresh seen [] = Unit
  IsFresh seen (c ∷ cs) =
      (any (λ key. text_eq key (key_of c)) seen ≡ false) × IsFresh (key_of c ∷ seen) cs

  -- If a book loads, then every contact of it is clean and no two have the same key.
  pub load_contacts-IsFresh :
      (seen : List Text) (raw : List Contact) {cs : List Contact}
      → load_contacts to_lowercase from_string seen raw ≡ ok cs
      → All IsClean cs × IsFresh seen cs
  unfolding load_contacts IsFresh
  load_contacts-IsFresh seen [] h =
      subst (λ cs. All IsClean cs × IsFresh seen cs) (ok-injective h) (tt, tt)
  load_contacts-IsFresh seen (value ∷ raw) h =
      let (c, n, h₁) =
        >>=-eq-ok
          (or_malformed
            (normalize_contact to_lowercase from_string value.name value.address value.memo))
          _ h in
      let (_, f, h₂) =
        >>=-eq-ok (fail_if (any (λ key. text_eq key (key_of c)) seen) duplicate_names) _ h₁ in
      let (rest, r, h₃) =
        >>=-eq-ok (load_contacts to_lowercase from_string (key_of c ∷ seen) raw) _ h₂ in
      let (clean, fresh) = load_contacts-IsFresh (key_of c ∷ seen) raw r in
      subst (λ cs. All IsClean cs × IsFresh seen cs) (ok-injective h₃)
        (
          (
            normalize_contact-IsClean value.name value.address value.memo (or_malformed-ok _ n),
            clean,
          ),
          (fail_if-ok _ _ f, fresh),
        )

  pub load_contacts_complete :
      (seen : List Text) (cs : List Contact)
      → All IsClean cs
      → IsFresh seen cs
      → load_contacts to_lowercase from_string seen cs ≡ ok cs
  unfolding load_contacts IsFresh
  load_contacts_complete seen [] h k = refl
  load_contacts_complete seen (c ∷ cs) (clean, hs) (new, ks) =
      rw (clean, new, load_contacts_complete (key_of c ∷ seen) cs hs ks) refl

  pub IsFresh-append :
      (seen : List Text) (cs : List Contact) (c : Contact)
      → IsFresh seen cs
      → any (λ key. text_eq key (key_of c)) seen ≡ false
      → any (has_key to_lowercase from_string (key_of c)) cs ≡ false
      → IsFresh seen (cs ++ c ∷ [])
  unfolding IsFresh
  IsFresh-append seen [] c fresh new absent = (new, tt)
  IsFresh-append seen (d ∷ cs) c (first, fresh) new absent =
      let other : text_eq (key_of d) (key_of c) ≡ false = ground arith in
      let rest : any (has_key to_lowercase from_string (key_of c)) cs ≡ false = ground arith in
      let seen_new : any (λ key. text_eq key (key_of c)) (key_of d ∷ seen) ≡ false = ground arith in
      (first, IsFresh-append (key_of d ∷ seen) cs c fresh seen_new rest)

  pub find-append :
      (key : Text) (cs : List Contact) (c : Contact)
      → any (has_key to_lowercase from_string key) cs ≡ false
      → has_key to_lowercase from_string key c ≡ true
      → find (has_key to_lowercase from_string key) (cs ++ c ∷ []) ≡ some c
  find-append key [] c absent same = rw same refl
  find-append key (d ∷ cs) c absent same =
      let other : has_key to_lowercase from_string key d ≡ false = ground arith in
      rw other (find-append key cs c (ground arith) same)

  pub take_out-append :
      (key : Text) (cs : List Contact) (c : Contact)
      → any (has_key to_lowercase from_string key) cs ≡ false
      → has_key to_lowercase from_string key c ≡ true
      → take_out to_lowercase from_string key (cs ++ c ∷ []) ≡ some (c, cs)
  unfolding take_out
  take_out-append key [] c absent same = rw same refl
  take_out-append key (d ∷ cs) c absent same =
      let other : has_key to_lowercase from_string key d ≡ false = ground arith in
      rw (other, take_out-append key cs c (ground arith) same) refl
