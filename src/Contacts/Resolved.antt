-- ===== src/Contacts/Resolved.antt =====
-- A contact that was added is found, resolved and removed again.
use fresnica.Prelude.{
  ◌≡◌, refl, Bool, false, Option, some, List, [], ◌∷◌, ◌++◌, any, All-append, Text, Outcome, ok,
  err, >>=-eq-ok, ok-injective, fail_if, fail_if-ok, ap, sym, ◌∙◌, subst, inl, inr, Outcome-cases,
}
use fresnica.Text.{is_empty, trim}
use fresnica.Text.Laws.{text_eq_refl, trim-trim}
use fresnica.Account.{Strkey}
use fresnica.Contacts.{
  Contact, ContactFile, name_key, name_key_checked, normalize_contact, has_key, load, find_contact,
  added, add, removed, remove, written_answer, or_memo, resolve_destination,
}
use fresnica.Contacts.Unique.{
  IsClean, key_of, normal_parts, normalize_contact-IsClean, load_contacts-IsFresh,
  load_contacts_complete, IsFresh-append, find-append, take_out-append,
}

absurd_answer : {A : Type 0} {c : Contact} (e : Text) → ◌≡◌ {A = Outcome Contact} (err e) (ok c) → A
absurd_answer e h = cc

module _ (to_lowercase : Text → Text) (from_string : Text → Option Strkey) where
  -- What was added to which contacts.
  IsAdded : Text → ContactFile → Contact → List Contact → Type 0
  IsAdded name file contact contacts =
      (load to_lowercase from_string file ≡ ok contacts)
      × IsClean to_lowercase from_string contact
      × (any (has_key to_lowercase from_string (key_of to_lowercase from_string contact)) contacts
          ≡ false)
      × (is_empty (trim name) ≡ false)
      × (name_key to_lowercase from_string name ≡ key_of to_lowercase from_string contact)

  same_key :
      (name : Text)
      → name_key to_lowercase from_string name ≡ name_key to_lowercase from_string (trim name)
  unfolding name_key
  same_key name = ap to_lowercase (sym (trim-trim name))

  added-IsAdded :
      (name address : Text) (memo : Option Text) (file : ContactFile)
      {result : Contact × List Contact}
      → added to_lowercase from_string name address memo file ≡ ok result
      → (contacts : List Contact) × IsAdded name file (result.0) contacts
        × (result.1 ≡ contacts ++ result.0 ∷ [])
  unfolding added IsAdded
  added-IsAdded name address memo file h =
      let (contact, n, h₁) =
        >>=-eq-ok (normalize_contact to_lowercase from_string name address memo) _ h in
      let (contacts, l, h₂) = >>=-eq-ok (load to_lowercase from_string file) _ h₁ in
      let (_, f, h₃) =
        >>=-eq-ok
          (fail_if
            (any (has_key to_lowercase from_string (key_of to_lowercase from_string contact))
              contacts)
            _)
          _ h₂ in
      let (named, _, same) = normal_parts to_lowercase from_string name address memo n in
      let spelled : trim name ≡ contact.name = ap (λ c. c.name) same in
      let both = ok-injective h₃ in
      (
        contacts,
        subst
            (λ c.
              (load to_lowercase from_string file ≡ ok contacts)
              × IsClean to_lowercase from_string c
              × (any (has_key to_lowercase from_string (key_of to_lowercase from_string c)) contacts
                  ≡ false)
              × (is_empty (trim name) ≡ false)
              × (name_key to_lowercase from_string name ≡ key_of to_lowercase from_string c))
            (ap (λ p. p.0) both)
            (
              l,
              normalize_contact-IsClean to_lowercase from_string name address memo n,
              fail_if-ok _ _ f,
              named,
              same_key name ∙ ap (name_key to_lowercase from_string) spelled,
            ),
        sym (ap (λ p. p.1) both) ∙ ap (λ c. contacts ++ c ∷ []) (ap (λ p. p.0) both),
      )

  -- The changed book is one that loads.
  load-added :
      (name : Text) (file : ContactFile) (contact : Contact) (contacts : List Contact)
      → IsAdded name file contact contacts
      → load to_lowercase from_string (ok (contacts ++ contact ∷ []))
        ≡ ok (contacts ++ contact ∷ [])
  unfolding IsAdded load
  load-added name file contact contacts (l, clean, absent, named, key) =
      let (raw, r, h) = >>=-eq-ok file _ l in
      let (all, fresh) = load_contacts-IsFresh to_lowercase from_string [] raw h in
      load_contacts_complete to_lowercase from_string [] (contacts ++ contact ∷ [])
        (All-append (IsClean to_lowercase from_string) contacts (contact ∷ []) all (clean, tt))
        (IsFresh-append to_lowercase from_string [] contacts contact fresh refl absent)

  module _ (name : Text) (file : ContactFile) (contact : Contact) (contacts : List Contact)
      (was_added : IsAdded name file contact contacts) where
    find-added :
        find_contact to_lowercase from_string name (ok (contacts ++ contact ∷ []))
        ≡ ok (some contact)
    unfolding find_contact name_key_checked IsAdded
    find-added =
        let (l, clean, absent, named, key) = was_added in
        rw
          (
            named,
            load-added name file contact contacts was_added,
            key,
            find-append to_lowercase from_string (key_of to_lowercase from_string contact) contacts
                contact absent (text_eq_refl (key_of to_lowercase from_string contact)),
          )
          refl

    removed-added :
        removed to_lowercase from_string name (ok (contacts ++ contact ∷ []))
        ≡ ok (contact, contacts)
    unfolding removed name_key_checked IsAdded
    removed-added =
        let (l, clean, absent, named, key) = was_added in
        rw
          (
            named,
            load-added name file contact contacts was_added,
            key,
            take_out-append to_lowercase from_string (key_of to_lowercase from_string contact)
                contacts contact absent (text_eq_refl (key_of to_lowercase from_string contact)),
          )
          refl

    remove-added :
        remove to_lowercase from_string (ok tt) name (ok (contacts ++ contact ∷ []))
        ≡ (ok contact, ok contacts)
    unfolding remove
    remove-added = rw (removed-added, remove) refl

  answered :
      (written : Outcome (Unit {0})) (c : Contact) (cs : List Contact) (file : ContactFile)
      {contact : Contact} {changed : ContactFile}
      → written_answer c cs file written ≡ (ok contact, changed)
      → (c ≡ contact) × (changed ≡ ok cs)
  answered (ok u) c cs file h = (ok-injective (ap (λ p. p.0) h), sym (ap (λ p. p.1) h))
  answered (err e) c cs file h = absurd_answer e (ap (λ p. p.0) h)

  -- An addition that answers has written what it added behind the contacts of the old book.
  add_parts :
      (written : Outcome (Unit {0})) (name address : Text) (memo : Option Text) (file : ContactFile)
      {contact : Contact} {changed : ContactFile}
      → add to_lowercase from_string written name address memo file ≡ (ok contact, changed)
      → (contacts : List Contact) × IsAdded name file contact contacts
        × (changed ≡ ok (contacts ++ contact ∷ []))
  unfolding add
  add_parts written name address memo file h =
      elim (Outcome-cases (added to_lowercase from_string name address memo file)) [
        | inl (e, failed) ↦ absurd_answer e (ap (λ p. p.0) (rw (failed, add) at h))
        | inr (result, r) ↦
            let (contacts, was_added, extended) = added-IsAdded name address memo file r in
            let (same, now) = answered written (result.0) (result.1) file (rw (r, add) at h) in
            (
              contacts,
              subst (λ c. IsAdded name file c contacts) same was_added,
              now ∙ ap ok (extended ∙ ap (λ c. contacts ++ c ∷ []) same),
            )
      ]

  -- If a contact was added, then the new book loads, the contact is found under its name, and its
  -- removal answers it and leaves the contacts that were there before.
  pub add-find_contact :
      (written : Outcome (Unit {0})) (name address : Text) (memo : Option Text) (file : ContactFile)
      {contact : Contact} {changed : ContactFile}
      → add to_lowercase from_string written name address memo file ≡ (ok contact, changed)
      → (contacts : List Contact) × (load to_lowercase from_string file ≡ ok contacts)
        × (load to_lowercase from_string changed ≡ ok (contacts ++ contact ∷ []))
        × (find_contact to_lowercase from_string name changed ≡ ok (some contact))
        × (remove to_lowercase from_string (ok tt) name changed ≡ (ok contact, ok contacts))
  unfolding IsAdded
  add-find_contact written name address memo file {contact} h =
      let (contacts, was_added, now) = add_parts written name address memo file h in
      (
        contacts,
        was_added.0,
        rw now (load-added name file contact contacts was_added),
        rw now (find-added name file contact contacts was_added),
        rw now (remove-added name file contact contacts was_added),
      )

  find_trimmed :
      (name : Text) (file : ContactFile)
      → find_contact to_lowercase from_string (trim name) file
        ≡ find_contact to_lowercase from_string name file
  unfolding find_contact name_key_checked name_key
  find_trimmed name file = rw (trim-trim name) refl

  -- If a contact was added under a name that is no address, then that name resolves to the address of
  -- the contact, with the explicit memo where there is one and the contact's own memo otherwise.
  pub resolve_destination-add :
      (is_address : Text → Bool) (written : Outcome (Unit {0})) (name address : Text)
      (memo explicit_memo : Option Text) (file : ContactFile) {contact : Contact}
      {changed : ContactFile}
      → is_address (trim name) ≡ false
      → add to_lowercase from_string written name address memo file ≡ (ok contact, changed)
      → resolve_destination to_lowercase from_string is_address changed name explicit_memo
        ≡ ok (record {
          address = contact.address;
          memo = or_memo explicit_memo contact.memo;
          contact_name = some contact.name;
        })
  unfolding resolve_destination
  resolve_destination-add is_address written name address memo explicit_memo file {contact}
        {changed} no_address h =
      let (contacts, _, _, found, _) = add-find_contact written name address memo file h in
      rw (no_address, find_trimmed name changed, found) refl
