-- ===== src/Dex/Offer/Sides.antt =====
-- The side of an offer is read back from its two assets.
use fresnica.Prelude.{
  ◌≡◌, refl, true, false, ◌&&◌, ◌↔◌, ap, sym, ◌∙◌, ok, &&-true, Bool-cases, inl, inr, arith, some,
  fail_if-ok,
}
use fresnica.Text.Laws.{text_eq_sound, text_eq_refl}
use fresnica.Stellar.{Stellar, Asset, native, credit_alphanum4, credit_alphanum12}
use fresnica.Dex.Liabilities.{OfferSide}
use fresnica.Dex.Offer.{assets, asset_eq, ensure_pair, infer_side}

module _ (X : Stellar) where
  open X use {Key, account_from_str, account_text, account_round}

  key_injective : (k l : Key) → account_text k ≡ account_text l → k ≡ l
  key_injective k l same =
      let both : some k ≡ some l =
        sym (account_round k) ∙ ap account_from_str same ∙ account_round l in
      cc

  pub asset_eq_sound : (a b : Asset Key) → asset_eq X a b ≡ true → a ≡ b
  unfolding asset_eq
  asset_eq_sound native native h = refl
  asset_eq_sound native (credit_alphanum4 r k) h = cc
  asset_eq_sound native (credit_alphanum12 r k) h = cc
  asset_eq_sound (credit_alphanum4 r k) native h = cc
  asset_eq_sound (credit_alphanum4 r k) (credit_alphanum4 s l) h =
      let (raws, keys) = &&-true _ _ h in
      rw (text_eq_sound r s raws, key_injective k l (text_eq_sound _ _ keys)) refl
  asset_eq_sound (credit_alphanum4 r k) (credit_alphanum12 s l) h = cc
  asset_eq_sound (credit_alphanum12 r k) native h = cc
  asset_eq_sound (credit_alphanum12 r k) (credit_alphanum4 s l) h = cc
  asset_eq_sound (credit_alphanum12 r k) (credit_alphanum12 s l) h =
      let (raws, keys) = &&-true _ _ h in
      rw (text_eq_sound r s raws, key_injective k l (text_eq_sound _ _ keys)) refl

  pub asset_eq_refl : (a : Asset Key) → asset_eq X a a ≡ true
  unfolding asset_eq
  asset_eq_refl native = refl
  asset_eq_refl (credit_alphanum4 r k) = rw (text_eq_refl r, text_eq_refl (account_text k)) refl
  asset_eq_refl (credit_alphanum12 r k) = rw (text_eq_refl r, text_eq_refl (account_text k)) refl

  asset_eq_complete : (a b : Asset Key) → a ≡ b → asset_eq X a b ≡ true
  asset_eq_complete a b h = rw h (asset_eq_refl b)

  both_complete : (a b c d : Asset Key) → a ≡ c → b ≡ d → (asset_eq X a c && asset_eq X b d) ≡ true
  both_complete a b c d h k = rw (asset_eq_complete a c h, asset_eq_complete b d k) refl

  both_sound : (a b c d : Asset Key) → (asset_eq X a c && asset_eq X b d) ≡ true → (a ≡ c) × (b ≡ d)
  both_sound a b c d h =
      let (one, two) = &&-true _ _ h in (asset_eq_sound a c one, asset_eq_sound b d two)

  -- The assets of an offer that sells and buys as the side does.
  abbrev IsOn : OfferSide → Asset Key → Asset Key → Asset Key → Asset Key → Type 0
  IsOn side selling buying base counter =
      (selling ≡ (assets side base counter).0) × (buying ≡ (assets side base counter).1)

  inferred :
      (selling buying base counter : Asset Key) (side : OfferSide)
      → infer_side X selling buying base counter ≡ ok side
      → IsOn side selling buying base counter
  unfolding infer_side assets
  inferred selling buying base counter OfferSide.sell h =
      elim (Bool-cases (asset_eq X selling base && asset_eq X buying counter)) [
        | inl same ↦ both_sound selling buying base counter same
        | inr other ↦ absurd (ground arith)
      ]
  inferred selling buying base counter OfferSide.buy h =
      elim (Bool-cases (asset_eq X selling counter && asset_eq X buying base)) [
        | inl same ↦ both_sound selling buying counter base same
        | inr other ↦ absurd (ground arith)
      ]

  infers :
      (selling buying base counter : Asset Key) (side : OfferSide)
      → ensure_pair X base counter ≡ ok tt
      → IsOn side selling buying base counter
      → infer_side X selling buying base counter ≡ ok side
  unfolding infer_side ensure_pair assets
  infers selling buying base counter OfferSide.sell different (sells, buys) =
      rw (both_complete selling buying base counter sells buys) refl
  infers selling buying base counter OfferSide.buy different (sells, buys) =
      let apart : asset_eq X buying counter ≡ false = rw buys (fail_if-ok _ _ different) in
      let first : (asset_eq X selling base && asset_eq X buying counter) ≡ false =
        rw apart (ground arith) in
      rw (first, both_complete selling buying counter base sells buys) refl

  -- For two different assets, `infer_side` answers a side if and only if the offer sells and buys
  -- the two assets that `assets` gives for this side.
  pub infer_side-assets :
      (selling buying base counter : Asset Key) (side : OfferSide)
      → ensure_pair X base counter ≡ ok tt
      → (infer_side X selling buying base counter ≡ ok side)
        ↔ ((selling ≡ (assets side base counter).0) × (buying ≡ (assets side base counter).1))
  infer_side-assets selling buying base counter side different =
      (inferred selling buying base counter side, infers selling buying base counter side different)
