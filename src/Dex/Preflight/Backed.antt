-- ===== src/Dex/Preflight/Backed.antt =====
-- What `preflight_create` promises: the account can sell, pay and take.
use fresnica.Prelude.{
  ℕ, ◌+◌, ◌*◌, ◌<◌, ◌≡◌, refl, Bool, true, false, not, ◌&&◌, Option, some, Text, ok, ok_or,
  >>=-eq-ok, ok_or-eq-ok, fail_if, fail_if-ok, and_then, ap₂, arith, Option-cases, Bool-cases, inl,
  inr, ◌⊎◌, zero, suc, subst, ◌∙◌, ap,
}
use fresnica.Int.{ℤ, pos, negsuc, max_zero, ◌+ℤ◌, ◌*ℤ◌, ltb_ℤ, checked_add, checked_mul}
use fresnica.Int.Laws.{checked_add_exact, checked_mul_exact}
use fresnica.Stellar.{Stellar, Asset, native, Price}
use fresnica.Json.{Json}
use fresnica.Horizon.{minimum_balance_stroops}
use fresnica.AssetId.{is_native, issuer_is}
use fresnica.Dex.Liabilities.{OfferSide, OfferLiabilities, offer_liabilities}
use fresnica.Dex.Capacity.{available_balance, receiving_capacity}
use fresnica.Dex.Capacity.Free.{Covers, available_balance-Covers}
use fresnica.Dex.Capacity.Room.{CanTake, receiving_capacity-CanTake}
use fresnica.Dex.Preflight.{
  future_minimum, requirement, check_native_selling, check_issued_selling, check_selling, new_limit,
  check_buying, preflight_create,
}

pos_product : (a b : ℕ) → pos a *ℤ pos b ≡ pos (a * b)
unfolding ◌*ℤ◌
pos_product a b = ground arith

pos_sum : (a b : ℕ) → pos a +ℤ pos b ≡ pos (a + b)
unfolding ◌+ℤ◌
pos_sum a b = ground arith

units_natural : (z : ℤ) → (n : ℕ) × (max_zero z ≡ pos n)
units_natural (pos n) = (n, refl)
units_natural (negsuc n) = (0, refl)

-- The least balance is a number of stroops.
pub minimum_balance-natural :
    (J : Json) (account : J.Value) (reserve : ℕ) {minimum : ℤ}
    → minimum_balance_stroops J account (pos reserve) ≡ ok minimum
    → (m : ℕ) × (minimum ≡ pos m)
unfolding minimum_balance_stroops
minimum_balance-natural J account reserve h =
    let (n, units) = units_natural _ in
    let (exact, _) = checked_mul_exact _ (pos reserve) (ok_or-eq-ok _ _ h) in
    (n * reserve, exact ∙ ap (λ u. u *ℤ pos reserve) units ∙ pos_product n reserve)

future_parts :
    (X : Stellar) (J : Json) (account : J.Value) (reserve extra : ℕ) {minimum : ℤ}
    → future_minimum X J account (pos reserve) (pos extra) ≡ ok minimum
    → (m : ℕ) × (minimum_balance_stroops J account (pos reserve) ≡ ok (pos m))
      × (minimum ≡ pos (m + reserve * extra))
unfolding future_minimum
future_parts X J account reserve extra h =
    let (more, e, h₁) = >>=-eq-ok (ok_or (checked_mul (pos reserve) (pos extra)) _) _ h in
    let (least, l, h₂) = >>=-eq-ok (minimum_balance_stroops J account (pos reserve)) _ h₁ in
    let (m, natural) = minimum_balance-natural J account reserve l in
    let (product, _) = checked_mul_exact (pos reserve) (pos extra) (ok_or-eq-ok _ _ e) in
    let (sum, _) = checked_add_exact least more (ok_or-eq-ok _ _ h₂) in
    (
      m,
      l ∙ ap ok natural,
      sum ∙ ap₂ ◌+ℤ◌ natural (product ∙ pos_product reserve extra) ∙ pos_sum m (reserve * extra),
    )

checked_twice :
    (a b c : ℤ) {d : ℤ}
    → and_then (checked_add a b) (λ value. checked_add value c) ≡ some d
    → d ≡ a +ℤ b +ℤ c
checked_twice a b c h = elim (Option-cases (checked_add a b)) [
  | inl e ↦ absurd (ground arith)
  | inr (value, e) ↦
      let (first, _) = checked_add_exact a b e in
      let (second, _) = checked_add_exact value c (rw e at h) in second ∙ ap (λ v. v +ℤ c) first
]

pub requirement-exact :
    (X : Stellar) (J : Json) (sold least fee : ℕ) {required : ℤ}
    → requirement X J sold (pos least) (pos fee) ≡ ok required
    → required ≡ pos (sold + least + fee)
unfolding requirement
requirement-exact X J sold least fee h =
    checked_twice (pos sold) (pos least) (pos fee) (ok_or-eq-ok _ _ h)
    ∙ ap (λ v. v +ℤ pos fee) (pos_sum sold least)
    ∙ pos_sum (sold + least) fee

-- An amount that is zero asks for nothing.
pub zero_or_positive : (n : ℕ) → (n ≡ 0) ⊎ (0 < n)
zero_or_positive zero = inl refl
zero_or_positive (suc n) = inr (omega arith)

-- How an account can sell, where `due` is least balance and fee.
pub data CanSell (X : Stellar) (J : Json) (account : J.Value) (id : Text) (asset : Asset X.Key)
    (sold due : ℕ) : Type 0 where
  in_lumens :
      is_native asset ≡ true
      → Covers X J account asset (pos (sold + due))
      → CanSell X J account id asset sold due
  as_issuer :
      is_native asset ≡ false
      → issuer_is X asset id ≡ true
      → Covers X J account native (pos due)
      → CanSell X J account id asset sold due
  in_trustline :
      is_native asset ≡ false
      → (sold ≡ 0) ⊎ Covers X J account asset (pos sold)
      → Covers X J account native (pos due)
      → CanSell X J account id asset sold due

module _ (X : Stellar) (J : Json) (account : J.Value) (id : Text) (asset : Asset X.Key)
    (sold least fee : ℕ) (paid : 0 < fee) {available : ℤ}
    (read : available_balance X J account asset ≡ ok available) where
  sells_lumens :
      is_native asset ≡ true
      → check_native_selling X J sold (pos least) (pos fee) available ≡ ok tt
      → CanSell X J account id asset sold (least + fee)
  unfolding check_native_selling
  sells_lumens lumens h =
      let (required, r, h₁) = >>=-eq-ok (requirement X J sold (pos least) (pos fee)) _ h in
      let exact = requirement-exact X J sold least fee r in
      let total : required ≡ pos (sold + (least + fee)) = exact ∙ ap pos (omega arith) in
      in_lumens lumens (
        available_balance-Covers X J account asset (sold + (least + fee)) (omega arith) read
          (rw total at (fail_if-ok _ _ h₁)))

  sells_issued :
      is_native asset ≡ false
      → check_issued_selling X J account id asset sold (pos least) (pos fee) available ≡ ok tt
      → CanSell X J account id asset sold (least + fee)
  unfolding check_issued_selling
  sells_issued issued h =
      let (_, p, h₁) =
        >>=-eq-ok (fail_if (not (issuer_is X asset id) && ltb_ℤ available (pos sold)) _) _ h in
      let (free, f, h₂) = >>=-eq-ok (available_balance X J account native) _ h₁ in
      let (due, d, h₃) = >>=-eq-ok (ok_or (checked_add (pos least) (pos fee)) _) _ h₂ in
      let (sum, _) = checked_add_exact (pos least) (pos fee) (ok_or-eq-ok _ _ d) in
      let total : due ≡ pos (least + fee) = sum ∙ pos_sum least fee in
      let pays =
        available_balance-Covers X J account native (least + fee) (omega arith) f
          (rw total at (fail_if-ok _ _ h₃)) in
      let passed = fail_if-ok _ _ p in
      elim (Bool-cases (issuer_is X asset id)) [
        | inl issuing ↦ as_issuer issued issuing pays
        | inr other ↦
            let enough : ltb_ℤ available (pos sold) ≡ false = rw other at passed in
            in_trustline issued
              (elim (zero_or_positive sold) [
                | inl nothing ↦ inl nothing
                | inr some_sold ↦
                    inr (available_balance-Covers X J account asset sold some_sold read enough)
              ])
              pays
      ]

  sells :
      check_selling X J account id asset sold (pos least) (pos fee) available ≡ ok tt
      → CanSell X J account id asset sold (least + fee)
  unfolding check_selling
  sells h = elim (Bool-cases (is_native asset)) [
    | inl lumens ↦ sells_lumens lumens (rw lumens at h)
    | inr issued ↦ sells_issued issued (rw issued at h)
  ]

-- What a passed preflight gives.
pub data IsBacked (X : Stellar) (J : Json) (account : J.Value) (id : Text) (side : OfferSide)
    (selling buying : Asset X.Key) (amount : ℤ) (price : Price) (reserve fee extra : ℕ)
    (adds_trustline : Bool) : Type 0 where
  backed :
      (l : OfferLiabilities) (least : ℕ) (added : Option ℤ)
      → offer_liabilities side amount price ≡ ok l
      → minimum_balance_stroops J account (pos reserve) ≡ ok (pos least)
      → new_limit X J adds_trustline ≡ ok added
      → CanSell X J account id selling l.selling (least + reserve * extra + fee)
      → (l.buying ≡ 0) ⊎ CanTake X J account id buying added l.buying
      → IsBacked X J account id side selling buying amount price reserve fee extra adds_trustline

takes :
    (X : Stellar) (J : Json) (account : J.Value) (id : Text) (buying : Asset X.Key) (n : ℕ)
    (adds : Bool)
    → check_buying X J account id buying n adds ≡ ok tt
    → (added : Option ℤ) × (new_limit X J adds ≡ ok added)
      × ((n ≡ 0) ⊎ CanTake X J account id buying added n)
unfolding check_buying
takes X J account id buying n adds h =
    let (added, a, h₁) = >>=-eq-ok (new_limit X J adds) _ h in
    let (capacity, c, h₂) = >>=-eq-ok (receiving_capacity X J account buying id added) _ h₁ in
    (
      added,
      a,
      elim (zero_or_positive n) [
        | inl nothing ↦ inl nothing
        | inr some_bought ↦ inr (
            receiving_capacity-CanTake X J n some_bought account id buying added c
              (fail_if-ok _ _ h₂))
      ],
    )

-- If `preflight_create` passes for a fee above zero, then the liabilities of the offer are known,
-- and the account can sell what they ask and pay its least balance, the reserves that the offer adds
-- and the fee beside its other offers, and it can take what the offer buys within its limits.
pub preflight_create-IsBacked :
    (X : Stellar) (J : Json) (account : J.Value) (id : Text) (side : OfferSide)
    (selling buying : Asset X.Key) (amount : ℤ) (price : Price) (reserve fee extra : ℕ)
    (adds_trustline : Bool)
    → 0 < fee
    → preflight_create X J account id side selling buying amount price
        (pos reserve)
        (pos fee)
        (pos extra)
        adds_trustline
      ≡ ok tt
    → IsBacked X J account id side selling buying amount price reserve fee extra adds_trustline
unfolding preflight_create
preflight_create-IsBacked X J account id side selling buying amount price reserve fee extra adds
      paid h =
    let (l, commits, h₁) = >>=-eq-ok (offer_liabilities side amount price) _ h in
    let (available, read, h₂) = >>=-eq-ok (available_balance X J account selling) _ h₁ in
    let (minimum, m, h₃) = >>=-eq-ok (future_minimum X J account (pos reserve) (pos extra)) _ h₂ in
    let (least, l₁, exact) = future_parts X J account reserve extra m in
    let (_, sold, h₄) =
      >>=-eq-ok (check_selling X J account id selling l.selling minimum (pos fee) available) _ h₃ in
    let (added, a, taking) = takes X J account id buying l.buying adds h₄ in
    let within =
      subst (λ z. check_selling X J account id selling l.selling z (pos fee) available ≡ ok tt)
        exact sold in
    backed l least added commits l₁ a
      (sells X J account id selling l.selling (least + reserve * extra) fee paid read within) taking
