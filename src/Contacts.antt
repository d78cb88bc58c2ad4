-- ===== src/Contacts.antt =====
-- The address book and the destination of a payment (reference/rust-client/src/contacts.rs).
--
-- The file is its decoded list of contacts, or the error of reading it; every operation returns what
-- it answers with the file that it leaves. `to_lowercase` of the standard library's Unicode tables,
-- the parse of a StrKey and whether a write fails are arguments.
pub mod Unique
pub mod Resolved
use fresnica.Prelude.{
  ℕ, Bool, true, false, not, ◌&&◌, Option, none, some, List, [], ◌∷◌, ◌++◌, any, find, Text, String,
  Outcome, ok, err, ◌>>=◌, ◌>>◌, fail_if, ok_or, if◌then◌else◌,
}
use fresnica.Text.{codes, text_eq, is_empty, trim}
use fresnica.Account.{Strkey, is_classic_address}

pub record Contact : Type 0 where
  pub name : Text
  pub address : Text
  pub memo : Option Text

pub record ResolvedDestination : Type 0 where
  pub address : Text
  pub memo : Option Text
  pub contact_name : Option Text

-- What the file holds; a missing file holds no contact.
abbrev pub ContactFile : Type 0
ContactFile = Outcome (List Contact)

abbrev malformed_book : Text
malformed_book = codes "Contact address book is malformed"

abbrev duplicate_names : Text
duplicate_names = codes "Contact address book contains duplicate names"

abbrev empty_name : Text
empty_name = codes "Contact name cannot be empty"

abbrev invalid_address : Text
invalid_address = codes "Contact address is not a valid Stellar G... account"

-- `memo.map(str::trim).filter(|value| !value.is_empty())`
unfoldable pub clean_memo : Option Text → Option Text
clean_memo none = none
clean_memo (some value) = if is_empty (trim value) then none else some (trim value)

-- `map_err` with a message that does not depend on the error.
abbrev pub or_malformed {ℓ} : {A : Type ℓ} → Outcome A → Outcome A
or_malformed (ok a) = ok a
or_malformed (err e) = err malformed_book

-- The answer of a change and the file after its write.
abbrev pub written_answer :
    Contact → List Contact → ContactFile → Outcome (Unit {0}) → Outcome Contact × ContactFile
written_answer contact contacts file (ok u) = (ok contact, ok contacts)
written_answer contact contacts file (err e) = (err e, file)

-- `Option::or`
abbrev pub or_memo : Option Text → Option Text → Option Text
or_memo none other = other
or_memo (some memo) other = some memo

module _ (to_lowercase : Text → Text) (from_string : Text → Option Strkey) where
  unfoldable pub name_key : Text → Text
  name_key name = to_lowercase (trim name)

  unfoldable pub name_key_checked : Text → Outcome Text
  name_key_checked name = fail_if (is_empty (trim name)) empty_name >> ok (name_key name)

  unfoldable pub normalize_contact : Text → Text → Option Text → Outcome Contact
  normalize_contact name address memo = do
    fail_if (is_empty (trim name)) empty_name
    fail_if (not (is_classic_address from_string (trim address))) invalid_address
    ok (record { name = trim name; address = trim address; memo = clean_memo memo })

  -- `name_key(&contact.name) == key`
  abbrev pub has_key : Text → Contact → Bool
  has_key key contact = text_eq (name_key contact.name) key

  -- The loop of `load`: what was `seen` are the keys of the contacts so far.
  unfoldable pub load_contacts : List Text → List Contact → Outcome (List Contact)
  load_contacts seen [] = ok []
  load_contacts seen (value ∷ raw) = do
    contact ← or_malformed (normalize_contact value.name value.address value.memo)
    fail_if (any (λ key. text_eq key (name_key contact.name)) seen) duplicate_names
    rest ← load_contacts (name_key contact.name ∷ seen) raw
    ok (contact ∷ rest)

  unfoldable pub load : ContactFile → Outcome (List Contact)
  load file = file >>= load_contacts []

  unfoldable pub find_contact : Text → ContactFile → Outcome (Option Contact)
  find_contact name file = do
    key ← name_key_checked name
    contacts ← load file
    ok (find (has_key key) contacts)

  -- The contact to add, and the list with it.
  unfoldable pub added : Text → Text → Option Text → ContactFile → Outcome (Contact × List Contact)
  added name address memo file = do
    contact ← normalize_contact name address memo
    contacts ← load file
    fail_if (any (has_key (name_key contact.name)) contacts)
        (codes "Contact already exists: " ++ contact.name)
    ok (contact, contacts ++ contact ∷ [])

  unfoldable pub add :
      Outcome (Unit {0}) → Text → Text → Option Text → ContactFile → Outcome Contact × ContactFile
  add written name address memo file = elim (added name address memo file) [
    | err e ↦ (err e, file)
    | ok result ↦ written_answer result.0 result.1 file written
  ]

  -- The first contact with the key, and the others in their order.
  unfoldable pub take_out : Text → List Contact → Option (Contact × List Contact)
  take_out key [] = none
  take_out key (contact ∷ contacts) =
      let rest = take_out key contacts in
      if has_key key contact
      then some (contact, contacts)
      else elim rest [ none ↦ none | some found ↦ some (found.0, contact ∷ found.1) ]

  unfoldable pub removed : Text → ContactFile → Outcome (Contact × List Contact)
  removed name file = do
    key ← name_key_checked name
    contacts ← load file
    ok_or (take_out key contacts) (codes "Contact not found: " ++ name)

  unfoldable pub remove : Outcome (Unit {0}) → Text → ContactFile → Outcome Contact × ContactFile
  remove written name file = elim (removed name file) [
    | err e ↦ (err e, file)
    | ok result ↦ written_answer result.0 result.1 file written
  ]

  abbrev unresolved : Text → Option Text → ResolvedDestination
  unresolved destination memo = record { address = destination; memo = memo; contact_name = none }

  abbrev pub resolution : Text → Option Text → Option Contact → ResolvedDestination
  resolution destination memo none = unresolved destination memo
  resolution destination memo (some contact) = record {
    address = contact.address;
    memo = or_memo memo contact.memo;
    contact_name = some contact.name;
  }

  -- `is_address` is the test that the text parses as a `G` or `M` address and prints as itself.
  unfoldable pub resolve_destination :
      (Text → Bool) → ContactFile → Text → Option Text → Outcome ResolvedDestination
  resolve_destination is_address file destination memo =
      if is_address (trim destination)
      then ok (unresolved (trim destination) memo)
      else (find_contact (trim destination) file >>= λ found.
          ok (resolution (trim destination) memo found))
