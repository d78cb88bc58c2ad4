-- ===== src/Dex/Preflight/Released.antt =====
-- What `preflight_update` promises: the new offer fits beside what the stored one releases.
use fresnica.Prelude.{
  ℕ, ◌+◌, ◌-◌, ◌≤◌, ◌<◌, ◌≡◌, true, false, none, some, Text, ok, ok_or, >>=-eq-ok, ok_or-eq-ok,
  fail_if-ok, arith, Bool-cases, inl, inr, ◌⊎◌, leb, if◌then◌else◌, subst, ap, ◌∙◌,
}
use fresnica.Int.{ℤ, pos, ◌+ℤ◌, ltb_ℤ, max_zero, saturating_sub, checked_add}
use fresnica.Int.Laws.{checked_add_exact}
use fresnica.Stellar.{Stellar, Asset, native, Price}
use fresnica.Json.{Json}
use fresnica.Horizon.{minimum_balance_stroops}
use fresnica.AssetId.{is_native, issuer_is}
use fresnica.Dex.Liabilities.{OfferSide, OfferLiabilities, offer_liabilities}
use fresnica.Dex.Capacity.{available_balance, receiving_capacity, ensure_offer_fee_capacity}
use fresnica.Dex.Capacity.Free.{Covers, available_balance-Covers}
use fresnica.Dex.Capacity.Room.{CanTake, receiving_capacity-CanTake}
use fresnica.Dex.Preflight.{
  requirement, check_available, check_released, released_capacity, preflight_update,
}
use fresnica.Dex.Preflight.Backed.{minimum_balance-natural, requirement-exact}

fee_reached :
    (available : ℤ) (least fee : ℕ)
    → 0 < fee
    → ltb_ℤ (max_zero (saturating_sub available (pos least))) (pos fee) ≡ false
    → ltb_ℤ available (pos (least + fee)) ≡ false
unfolding saturating_sub
fee_reached available least fee paid h = ground arith

module _ (X : Stellar) (J : Json) (account : J.Value) where
  pub fee_covered :
      (reserve fee : ℕ)
      → 0 < fee
      → ensure_offer_fee_capacity X J account (pos reserve) (pos fee) ≡ ok tt
      → (least : ℕ) × (minimum_balance_stroops J account (pos reserve) ≡ ok (pos least))
        × Covers X J account native (pos (least + fee))
  unfolding ensure_offer_fee_capacity
  fee_covered reserve fee paid h =
      let (available, read, h₁) = >>=-eq-ok (available_balance X J account native) _ h in
      let (minimum, m, h₂) = >>=-eq-ok (minimum_balance_stroops J account (pos reserve)) _ h₁ in
      let (least, natural) = minimum_balance-natural J account reserve m in
      let enough =
        subst (λ z. ltb_ℤ (max_zero (saturating_sub available z)) (pos fee) ≡ false) natural
          (fail_if-ok _ _ h₂) in
      (
        least,
        m ∙ ap ok natural,
        available_balance-Covers X J account native (least + fee) (omega arith) read
            (fee_reached available least fee paid enough),
      )

-- What is released covers the need, or what is free covers the rest.
abbrev Beside : ℕ → ℕ → (ℕ → Type 0) → Type 0
Beside need released Rest = (need ≤ released) ⊎ (released < need) × Rest (need - released)

compared : (need released : ℕ) → (need ≤ released) ⊎ (released < need)
compared need released = elim (Bool-cases (leb need released)) [
  | inl within ↦ inl (ground arith)
  | inr beyond ↦ inr (ground arith)
]

rest_reached :
    (free sum : ℤ) (need released : ℕ)
    → sum ≡ free +ℤ pos released
    → ltb_ℤ sum (pos need) ≡ false
    → released < need
    → ltb_ℤ free (pos (need - released)) ≡ false
unfolding ◌+ℤ◌
rest_reached free sum need released exact h less = ground arith

-- Least balance and fee, which only an offer of lumens takes from what it sells.
abbrev due_for : {K : Type 0} → Asset K → ℕ → ℕ
due_for asset amount = if is_native asset then amount else 0

-- How the account can sell and take what the new offer asks.
pub data IsRebacked (X : Stellar) (J : Json) (account : J.Value) (id : Text) (side : OfferSide)
    (selling buying : Asset X.Key) (amount : ℤ) (price : Price) (old_amount : ℤ) (old_price : Price)
    (reserve fee : ℕ) : Type 0 where
  rebacked :
      (new old : OfferLiabilities) (least : ℕ)
      → offer_liabilities side amount price ≡ ok new
      → offer_liabilities OfferSide.sell old_amount old_price ≡ ok old
      → minimum_balance_stroops J account (pos reserve) ≡ ok (pos least)
      → Covers X J account native (pos (least + fee))
      → (issuer_is X selling id ≡ true)
        ⊎ Beside
            (new.selling + due_for selling (least + fee))
            old.selling
            (λ n. Covers X J account selling (pos n))
      → (issuer_is X buying id ≡ true)
        ⊎ Beside new.buying old.buying (CanTake X J account id buying none)
      → IsRebacked X J account id side selling buying amount price old_amount old_price reserve fee

module _ (X : Stellar) (J : Json) (account : J.Value) (id : Text) (asset : Asset X.Key)
    (new old : OfferLiabilities) where
  sells_beside :
      (need : ℕ) {free available : ℤ}
      → available_balance X J account asset ≡ ok free
      → checked_add free (pos old.selling) ≡ some available
      → ltb_ℤ available (pos need) ≡ false
      → Beside need old.selling (λ n. Covers X J account asset (pos n))
  sells_beside need {free} {available} read sum enough = elim (compared need old.selling) [
    | inl within ↦ inl within
    | inr beyond ↦
        let (exact, _) = checked_add_exact free (pos old.selling) sum in
        inr (
          beyond,
          available_balance-Covers X J account asset (need - old.selling) (omega arith) read
              (rest_reached free available need old.selling exact enough beyond),
        )
  ]

  enough_beside :
      (reserve fee least : ℕ) {free available : ℤ}
      → minimum_balance_stroops J account (pos reserve) ≡ ok (pos least)
      → available_balance X J account asset ≡ ok free
      → checked_add free (pos old.selling) ≡ some available
      → check_available X J account asset new available (pos reserve) (pos fee) ≡ ok tt
      → Beside
          (new.selling + due_for asset (least + fee))
          old.selling
          (λ n. Covers X J account asset (pos n))
  unfolding check_available
  enough_beside reserve fee least {available} minimum read added h =
      elim (Bool-cases (is_native asset)) [
        | inl lumens ↦
            let (required, r, h₁) =
              >>=-eq-ok (requirement X J new.selling (pos least) (pos fee)) _
                (rw (lumens, minimum) at h) in
            let exact = requirement-exact X J new.selling least fee r in
            let need : required ≡ pos (new.selling + (least + fee)) =
              exact ∙ ap pos (omega arith) in
            rw lumens (
              sells_beside (new.selling + (least + fee)) read added
                (rw need at (fail_if-ok _ _ h₁)))
        | inr issued ↦
            let enough : ltb_ℤ available (pos new.selling) ≡ false =
              fail_if-ok _ _ (rw issued at h) in
            let same : new.selling ≡ new.selling + 0 = omega arith in
            rw issued (
              sells_beside (new.selling + 0) read added
                (subst (λ n. ltb_ℤ available (pos n) ≡ false) same enough))
      ]

  releases :
      (reserve fee least : ℕ)
      → minimum_balance_stroops J account (pos reserve) ≡ ok (pos least)
      → check_released X J account id asset new old (pos reserve) (pos fee) ≡ ok tt
      → (issuer_is X asset id ≡ true)
        ⊎ Beside
            (new.selling + due_for asset (least + fee))
            old.selling
            (λ n. Covers X J account asset (pos n))
  unfolding check_released
  releases reserve fee least minimum h = elim (Bool-cases (issuer_is X asset id)) [
    | inl issuing ↦ inl issuing
    | inr other ↦
        let (free, read, h₁) = >>=-eq-ok (available_balance X J account asset) _ (rw other at h) in
        let (available, sum, h₂) = >>=-eq-ok (ok_or (checked_add free (pos old.selling)) _) _ h₁ in
        inr (enough_beside reserve fee least minimum read (ok_or-eq-ok _ _ sum) h₂)
  ]

  takes_beside :
      {capacity : ℤ}
      → released_capacity X J account id asset old ≡ ok capacity
      → ltb_ℤ capacity (pos new.buying) ≡ false
      → (issuer_is X asset id ≡ true)
        ⊎ Beside new.buying old.buying (CanTake X J account id asset none)
  unfolding released_capacity
  takes_beside {capacity} h enough = elim (Bool-cases (issuer_is X asset id)) [
    | inl issuing ↦ inl issuing
    | inr other ↦
        let (free, read, h₁) =
          >>=-eq-ok (receiving_capacity X J account asset id none) _ (rw other at h) in
        let (exact, _) = checked_add_exact free (pos old.buying) (ok_or-eq-ok _ _ h₁) in
        inr (elim (compared new.buying old.buying) [
          | inl within ↦ inl within
          | inr beyond ↦ inr (
            beyond,
            receiving_capacity-CanTake X J (new.buying - old.buying) (omega arith) account id asset
                none read (rest_reached free capacity new.buying old.buying exact enough beyond),
          )
        ])
  ]

-- If `preflight_update` passes for a fee above zero, then the account can pay its least balance and
-- the fee, and what the new offer sells (with these, for lumens) and takes is within what the stored
-- offer releases, or the excess is covered by what the account has free; an issuer sells and takes
-- its own asset.
pub preflight_update-IsRebacked :
    (X : Stellar) (J : Json) (account : J.Value) (id : Text) (side : OfferSide)
    (selling buying : Asset X.Key) (amount : ℤ) (price : Price) (old_amount : ℤ) (old_price : Price)
    (reserve fee : ℕ)
    → 0 < fee
    → preflight_update X J account id side selling buying amount price old_amount old_price
        (pos reserve)
        (pos fee)
      ≡ ok tt
    → IsRebacked X J account id side selling buying amount price old_amount old_price reserve fee
unfolding preflight_update
preflight_update-IsRebacked X J account id side selling buying amount price old_amount old_price
      reserve fee paid h =
    let (_, f, h₁) =
      >>=-eq-ok (ensure_offer_fee_capacity X J account (pos reserve) (pos fee)) _ h in
    let (new, commits, h₂) = >>=-eq-ok (offer_liabilities side amount price) _ h₁ in
    let (old, held, h₃) = >>=-eq-ok (offer_liabilities OfferSide.sell old_amount old_price) _ h₂ in
    let (_, sold, h₄) =
      >>=-eq-ok (check_released X J account id selling new old (pos reserve) (pos fee)) _ h₃ in
    let (capacity, c, h₅) = >>=-eq-ok (released_capacity X J account id buying old) _ h₄ in
    let (least, minimum, pays) = fee_covered X J account reserve fee paid f in
    rebacked new old least commits held minimum pays
      (releases X J account id selling new old reserve fee least minimum sold)
      (takes_beside X J account id buying new old c (fail_if-ok _ _ h₅))
