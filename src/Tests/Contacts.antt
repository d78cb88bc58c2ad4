-- ===== src/Tests/Contacts.antt =====
-- An address book with one contact.
use fresnica.Prelude.{◌≡◌, refl, false, Option, none, some, List, [], ◌∷◌, ◌++◌, Text, ok}
use fresnica.Text.{codes, text_eq, trim, trim_start, is_whitespace}
use fresnica.Account.{Strkey, public_key_ed25519, parse_account, is_classic_address}
use fresnica.Contacts.{
  Contact, ContactFile, clean_memo, name_key, normalize_contact, load_contacts, load, find_contact,
  added, add, remove, resolve_destination,
}
use fresnica.Contacts.Resolved.{add-find_contact, resolve_destination-add}

-- Letters of the sample have one case.
abbrev same_case : Text → Text
same_case t = t

abbrev every_key : Text → Option Strkey
every_key t = some public_key_ed25519

abbrev old_book : ContactFile
old_book = ok (record { name = codes "ann"; address = codes "GA"; memo = none } ∷ [])

abbrev bob : Contact
bob = record { name = codes "bob"; address = codes "GB"; memo = some (codes "7") }

abbrev new_book : ContactFile
new_book = ok (record { name = codes "ann"; address = codes "GA"; memo = none } ∷ bob ∷ [])

bob_added :
    add same_case every_key (ok tt) (codes " bob") (codes "GB ") (some (codes " 7 ")) old_book
    ≡ (ok bob, new_book)
unfolding add added load load_contacts normalize_contact name_key clean_memo is_classic_address
    parse_account text_eq trim trim_start is_whitespace codes
bob_added = refl

add-find_contact_example :
    (contacts : List Contact) × (load same_case every_key old_book ≡ ok contacts)
    × (load same_case every_key new_book ≡ ok (contacts ++ bob ∷ []))
    × (find_contact same_case every_key (codes " bob") new_book ≡ ok (some bob))
    × (remove same_case every_key (ok tt) (codes " bob") new_book ≡ (ok bob, ok contacts))
add-find_contact_example =
    add-find_contact same_case every_key (ok tt) (codes " bob") (codes "GB ") (some (codes " 7 "))
      old_book bob_added

resolve_destination-add_example :
    resolve_destination same_case every_key (λ t. false) new_book (codes " bob") none
    ≡ ok (record {
      address = codes "GB";
      memo = some (codes "7");
      contact_name = some (codes "bob");
    })
resolve_destination-add_example =
    resolve_destination-add same_case every_key (λ t. false) (ok tt) (codes " bob") (codes "GB ")
      (some (codes " 7 ")) none old_book refl bob_added
