-- ===== src/Dex/Offer/Owned.antt =====
-- The owner and the id of an offer that is changed or cancelled.
use fresnica.Prelude.{
  ◌≡◌, refl, Bool, true, false, not, some, ok, ok_or, >>=-eq-ok, ok_or-eq-ok, fail_if-ok, ap, ◌∙◌,
}
use fresnica.Text.{codes, text_eq}
use fresnica.Text.Laws.{text_eq_sound}
use fresnica.Int.{ℤ, pos, ltb_ℤ}
use fresnica.Json.{Json}
use fresnica.Horizon.{text}
use fresnica.Authorization.Load.{WalletRecord}
use fresnica.Dex.Offer.{validate_offer_id, ensure_offer_owner}

not_kept : (b : Bool) → not b ≡ false → b ≡ true
not_kept true h = refl
not_kept false h = cc

-- The offer is the wallet's own.
pub IsOwned : (J : Json) → J.Value → WalletRecord → Type 0
IsOwned J offer wallet = text J offer (codes "seller") ≡ some wallet.address

pub ensure_offer_owner-IsOwned :
    (J : Json) (offer : J.Value) (wallet : WalletRecord)
    → ensure_offer_owner J offer wallet ≡ ok tt
    → IsOwned J offer wallet
unfolding ensure_offer_owner IsOwned
ensure_offer_owner-IsOwned J offer wallet h =
    let (seller, s, h₁) = >>=-eq-ok (ok_or (text J offer (codes "seller")) _) _ h in
    ok_or-eq-ok _ _ s
    ∙ ap some (
        text_eq_sound seller wallet.address
          (not_kept (text_eq seller wallet.address) (fail_if-ok _ _ h₁)))

pub positive_id :
    (offer_id : ℤ) → validate_offer_id offer_id ≡ ok tt → ltb_ℤ (pos 0) offer_id ≡ true
unfolding validate_offer_id
positive_id offer_id h = not_kept (ltb_ℤ (pos 0) offer_id) (fail_if-ok _ _ h)
