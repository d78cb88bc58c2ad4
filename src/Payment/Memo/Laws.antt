-- ===== src/Payment/Memo/Laws.antt =====
-- Which memo a destination takes, and that the review of a memo says all there is to know of it.
use fresnica.Prelude.{
  ℕ, ◌≤◌, ◌≡◌, ◌↔◌, refl, ◌∙◌, Bool, true, false, Option, none, some, List, [], ◌∷◌, length, Text,
  ok, >>=-eq-ok, fail_if-ok, ap, arith, All, ok_or, ok_or-eq-ok, ok-injective, and_then,
  and_then-eq-some, Option-cases, Bool-cases, inl, inr,
}
use fresnica.Text.{codes, text_eq}
use fresnica.Text.Laws.{text_eq_iff}
use fresnica.Int.{u64_max}
use fresnica.Decimal.{digits, parse_unsigned, parse_digits}
use fresnica.Decimal.Laws.{
  IsDigit, parse_digits_complete, digits-All-digits, digits-ne-nil, value-digits,
}
use fresnica.Json.{Json}
use fresnica.Payment.Memo.{
  memo_field, PaymentMemo, PaymentMemoReview, PaymentDestination, hash_from_base64,
  from_anchor_fields, memo_review, account_requires_memo, validate_destination_memo,
}

abbrev pub is_id : PaymentMemo → Bool
is_id memo = elim memo [ PaymentMemo.id n ↦ true | _ ↦ false ]

-- The account has the data entry `config.memo_required`, with this text.
abbrev pub HasEntry : (J : Json) → J.Value → Text → Type 0
HasEntry J account encoded =
    (entries : J.Value) × (fields : J.Object) × (entry : J.Value) × (J.get account (codes "data")
      ≡ some entries)
    × (J.as_object entries ≡ some fields)
    × (J.object_get fields (codes "config.memo_required") ≡ some entry)
    × (J.as_str entry ≡ some encoded)

-- The byte of the digit one, as SEP-29 has it.
abbrev required_value : List ℕ
required_value = 49 ∷ []

-- The account asks for no memo: it has no such text, or one that decodes to another value.
pub data Declines (J : Json) (decode_base64 : Text → Option (List ℕ)) (account : J.Value)
    : Type 0 where
  no_entry : ¬ ((encoded : Text) × HasEntry J account encoded) → Declines J decode_base64 account
  other_value :
      (encoded : Text) (decoded : List ℕ)
      → HasEntry J account encoded
      → decode_base64 encoded ≡ some decoded
      → ¬ (decoded ≡ required_value)
      → Declines J decode_base64 account

-- The reasons for which a destination takes a memo: `muxed_id` is the number that the address
-- embeds.
pub data Suits (J : Json) (decode_base64 : Text → Option (List ℕ)) (muxed_id : Option ℕ)
    (memo : PaymentMemo) (account : J.Value) : Type 0 where
  muxed_other :
      (n : ℕ) → muxed_id ≡ some n → is_id memo ≡ false → Suits J decode_base64 muxed_id memo account
  muxed_same :
      (n : ℕ)
      → muxed_id ≡ some n
      → memo ≡ PaymentMemo.id n
      → Suits J decode_base64 muxed_id memo account
  with_memo :
      muxed_id ≡ none → ¬ (memo ≡ PaymentMemo.no_memo) → Suits J decode_base64 muxed_id memo account
  not_required :
      muxed_id ≡ none
      → memo ≡ PaymentMemo.no_memo
      → Declines J decode_base64 account
      → Suits J decode_base64 muxed_id memo account

module _ (J : Json) (decode_base64 : Text → Option (List ℕ)) (account : J.Value) where
  -- The entry that the code reads.
  read-HasEntry :
      (encoded : Text)
      → memo_field J decode_base64 account ≡ some encoded
      → HasEntry J account encoded
  read-HasEntry encoded h =
      let (fields, f, h₁) =
        and_then-eq-some (and_then (J.get account (codes "data")) J.as_object) _ h in
      let (entries, d, o) = and_then-eq-some (J.get account (codes "data")) J.as_object f in
      let (entry, e, t) =
        and_then-eq-some (J.object_get fields (codes "config.memo_required")) J.as_str h₁ in
      (entries, fields, entry, d, o, e, t)

  HasEntry-read :
      (encoded : Text)
      → HasEntry J account encoded
      → memo_field J decode_base64 account ≡ some encoded
  HasEntry-read encoded (entries, fields, entry, d, o, e, t) = rw (d, o, e) t

  is_required :
      (decoded : List ℕ) → (text_eq decoded (codes "1") ≡ true) ↔ (decoded ≡ required_value)
  unfolding codes
  is_required decoded = text_eq_iff decoded required_value

  requires_no_memo :
      account_requires_memo J decode_base64 account ≡ ok false → Declines J decode_base64 account
  unfolding account_requires_memo
  requires_no_memo h = elim (Option-cases (memo_field J decode_base64 account)) [
    | inl e ↦ no_entry (λ found. cc (e, HasEntry-read found.0 found.1))
    | inr (encoded, e) ↦
        let (decoded, d, h₁) =
          >>=-eq-ok (ok_or (decode_base64 encoded) _) _ (rw (e, account_requires_memo) at h) in
        other_value encoded decoded (read-HasEntry encoded e) (ok_or-eq-ok _ _ d)
          (λ same. cc (ok-injective h₁, (is_required decoded).1 same))
  ]

  declined :
      Declines J decode_base64 account → account_requires_memo J decode_base64 account ≡ ok false
  unfolding account_requires_memo
  declined (no_entry absent) = elim (Option-cases (memo_field J decode_base64 account)) [
    | inl e ↦ rw (e, account_requires_memo) refl
    | inr (encoded, e) ↦ absurd (absent (encoded, read-HasEntry encoded e))
  ]
  declined (other_value encoded decoded has d other) =
      elim (Bool-cases (text_eq decoded (codes "1"))) [
        | inl same ↦ absurd (other ((is_required decoded).0 same))
        | inr differs ↦ rw (HasEntry-read encoded has, account_requires_memo, d, differs) refl
      ]

module _ {K : Type 0} (J : Json) (decode_base64 : Text → Option (List ℕ)) (address : Text)
    (destination : PaymentDestination K) (account : J.Value) where
  passed :
      (muxed_id : Option ℕ) (memo : PaymentMemo)
      → destination.muxed_id ≡ muxed_id
      → validate_destination_memo J decode_base64 address destination memo account ≡ ok tt
      → Suits J decode_base64 muxed_id memo account
  unfolding validate_destination_memo
  passed (some n) PaymentMemo.no_memo e h = muxed_other n refl refl
  passed (some n) (PaymentMemo.text t) e h = muxed_other n refl refl
  passed (some n) (PaymentMemo.hash b) e h = muxed_other n refl refl
  passed (some n) (PaymentMemo.id m) e h = muxed_same n refl (ap PaymentMemo.id (ground arith))
  passed none (PaymentMemo.text t) e h = with_memo refl (λ e. cc e)
  passed none (PaymentMemo.hash b) e h = with_memo refl (λ e. cc e)
  passed none (PaymentMemo.id m) e h = with_memo refl (λ e. cc e)
  passed none PaymentMemo.no_memo e h =
      let (required, r, h₁) =
        >>=-eq-ok (account_requires_memo J decode_base64 account) _ (rw e at h) in
      not_required refl refl
        (requires_no_memo J decode_base64 account (r ∙ ap ok (fail_if-ok required _ h₁)))

  passes :
      (memo : PaymentMemo)
      → Suits J decode_base64 destination.muxed_id memo account
      → validate_destination_memo J decode_base64 address destination memo account ≡ ok tt
  unfolding validate_destination_memo
  passes memo (muxed_other n e h) = ground arith
  passes memo (muxed_same n e h) = ground arith
  passes PaymentMemo.no_memo (with_memo e h) = absurd (h refl)
  passes (PaymentMemo.text t) (with_memo e h) = ground arith
  passes (PaymentMemo.id m) (with_memo e h) = ground arith
  passes (PaymentMemo.hash b) (with_memo e h) = ground arith
  passes memo (not_required e h none_asked) =
      let free = declined J decode_base64 account none_asked in ground arith

  -- `validate_destination_memo` passes exactly if the address is muxed and the memo is no id or the
  -- id of the address, or the address is not muxed and there is a memo, or the account has no text
  -- under the data entry `config.memo_required`, or that text decodes to something else than the
  -- digit one.
  pub validate_destination_memo_iff :
      (memo : PaymentMemo)
      → (validate_destination_memo J decode_base64 address destination memo account ≡ ok tt)
        ↔ Suits J decode_base64 destination.muxed_id memo account
  validate_destination_memo_iff memo = (passed destination.muxed_id memo refl, passes memo)

parse_unsigned-digits :
    (bound : ℕ) (s : Text) → All IsDigit s → parse_unsigned bound s ≡ parse_digits bound s
unfolding parse_unsigned parse_digits
parse_unsigned-digits bound [] h = refl
parse_unsigned-digits bound (c ∷ s) h = ground arith

read_back : (n : ℕ) → n ≤ u64_max → parse_unsigned u64_max (digits n) ≡ some n
read_back n h =
    parse_unsigned-digits u64_max (digits n) (digits-All-digits n)
    ∙ parse_digits_complete u64_max (digits n) (digits-All-digits n) (digits-ne-nil n)
        (rw (value-digits n) h)
    ∙ ap some (value-digits n)

-- The memos that the client can send: an id of 64 bits, a hash of 32 bytes.
abbrev pub IsSendable : PaymentMemo → Type 0
IsSendable PaymentMemo.no_memo = Unit {0}
IsSendable (PaymentMemo.text t) = Unit {0}
IsSendable (PaymentMemo.id n) = n ≤ u64_max
IsSendable (PaymentMemo.hash b) = length b ≡ 32

abbrev pub shown_type : Option PaymentMemoReview → Option Text
shown_type none = none
shown_type (some r) = some r.memo_type

abbrev pub shown_value : Option PaymentMemoReview → Option Text
shown_value none = none
shown_value (some r) = some r.value

-- If base64 decodes what it encodes, then the type and value that the review shows, read back as
-- anchor fields, give the memo of the payment again, for ids of 64 bits and hashes of 32 bytes.
pub from_anchor_fields-memo_review :
    (encode_base64 : List ℕ → Text) (decode_base64 : Text → Option (List ℕ))
    (round : (b : List ℕ) → decode_base64 (encode_base64 b) ≡ some b) (memo : PaymentMemo)
    → IsSendable memo
    → from_anchor_fields decode_base64
        (shown_type (memo_review encode_base64 memo))
        (shown_value (memo_review encode_base64 memo))
      ≡ ok memo
unfolding from_anchor_fields memo_review text_eq codes hash_from_base64
from_anchor_fields-memo_review encode decode round PaymentMemo.no_memo h = refl
from_anchor_fields-memo_review encode decode round (PaymentMemo.text t) h = refl
from_anchor_fields-memo_review encode decode round (PaymentMemo.id n) h =
    ground (arith, read_back n h)
from_anchor_fields-memo_review encode decode round (PaymentMemo.hash b) h = ground (arith, round b)
