-- ===== src/Dex/Fills/Conserved.antt =====
-- The fills of an account hold exactly its trades.
use fresnica.Prelude.{
  ◌≡◌, refl, false, List, [], ◌∷◌, ◌++◌, All, Text, Outcome, ok, ◌>>=◌, >>=-eq-ok, ok-injective, ap,
  sym, Bool-cases, inl, inr, subst,
}
use fresnica.Text.{codes}
use fresnica.Stellar.{Stellar}
use fresnica.Json.{Json}
use fresnica.Dex.Fills.Runs.{
  IsSameKey, IsRun, IsSameKey-can_merge, IsSameKey-right, IsRun-nil, IsRun-cons, merge-IsRun,
}
use fresnica.Dex.Fills.{
  WorkingFill, FillSegment, finish_all, can_merge, merge, trade_price, trade_asset,
  parse_trade_amount, segment, fills_from, working_fills, compress_account_trades,
}

-- The head of a list has another key than the fill before it.
unfoldable pub Apart : WorkingFill → List WorkingFill → Type 0
Apart f [] = Unit
Apart f (g ∷ fs) = ¬ IsSameKey f g

-- No two neighbours have the same key.
unfoldable pub Separate : List WorkingFill → Type 0
Separate [] = Unit
Separate (f ∷ fs) = Apart f fs × Separate fs

-- The trades in their order, cut into a run for each fill.
pub data Splits : List WorkingFill → List WorkingFill → Type 0 where
  nothing : Splits [] []
  run :
      (fill first : WorkingFill) (fills more rest : List WorkingFill)
      → IsRun first more fill
      → Splits fills rest
      → Splits (fill ∷ fills) (first ∷ (more ++ rest))

module _ (X : Stellar) (J : Json) (address : Text) where
  open J use {Value}

  -- The trades one by one, each as a fill of its own.
  unfoldable pub segments : List Value → Outcome (List WorkingFill)
  segments [] = ok []
  segments (raw ∷ records) =
      segment X J address raw >>= λ current. segments records >>= λ rest. ok (current ∷ rest)

  -- The fills that extend `last` by the records: a run from `last`, and the fills of the others.
  Extends : WorkingFill → List Value → List WorkingFill → Type 0
  Extends last records out =
      (fill : WorkingFill) × (fills : List WorkingFill) × (more : List WorkingFill) × (rest : List
        WorkingFill)
      × (segments records ≡ ok (more ++ rest))
      × (out ≡ fill ∷ fills)
      × IsRun last more fill
      × Splits fills rest
      × Separate out

  Extends-nil : (last : WorkingFill) → Extends last [] (last ∷ [])
  unfolding Extends segments Separate Apart
  Extends-nil last = (last, [], [], [], refl, refl, IsRun-nil last, nothing, (tt, tt))

  Extends-merge :
      (last current merged : WorkingFill) (raw : Value) (records : List Value)
      (out : List WorkingFill)
      → segment X J address raw ≡ ok current
      → IsRun last (current ∷ []) merged
      → Extends merged records out
      → Extends last (raw ∷ records) out
  unfolding Extends segments
  Extends-merge last current merged raw records out read m
        (fill, fills, more, rest, s, shape, r, split, apart) =
      (
        fill,
        fills,
        current ∷ more,
        rest,
        rw (read, s) refl,
        shape,
        IsRun-cons last current merged fill more m r,
        split,
        apart,
      )

  Extends-next :
      (last current : WorkingFill) (raw : Value) (records : List Value) (out : List WorkingFill)
      → segment X J address raw ≡ ok current
      → can_merge last current ≡ false
      → Extends current records out
      → Extends last (raw ∷ records) (last ∷ out)
  unfolding Extends segments Separate Apart
  Extends-next last current raw records out read new
        (fill, fills, more, rest, s, shape, r, split, apart) =
      (
        last,
        out,
        [],
        current ∷ (more ++ rest),
        rw (read, s) refl,
        refl,
        IsRun-nil last,
        subst (λ o. Splits o (current ∷ (more ++ rest))) (sym shape)
            (run fill current fills more rest r split),
        (
          subst (Apart last) (sym shape) (λ same. cc (
            new,
            IsSameKey-can_merge last current (IsSameKey-right last current fill more r same),
          )),
          apart,
        ),
      )

  segment_count :
      (raw : Value) {current : WorkingFill}
      → segment X J address raw ≡ ok current
      → current.trade_count ≡ 1
  unfolding segment
  segment_count raw h =
      let (_, _, h₁) = >>=-eq-ok (trade_price X J raw) _ h in
      let (_, _, h₂) = >>=-eq-ok (trade_asset X J raw (codes "base")) _ h₁ in
      let (_, _, h₃) = >>=-eq-ok (trade_asset X J raw (codes "counter")) _ h₂ in
      let (_, _, h₄) = >>=-eq-ok (parse_trade_amount X J raw (codes "base_amount")) _ h₃ in
      let (_, _, h₅) = >>=-eq-ok (parse_trade_amount X J raw (codes "counter_amount")) _ h₄ in
      ap (λ f. f.trade_count) (sym (ok-injective h₅))

  segments-single :
      (records : List Value) {trades : List WorkingFill}
      → segments records ≡ ok trades
      → All (λ t. t.trade_count ≡ 1) trades
  unfolding segments
  segments-single [] h = subst (All (λ t. t.trade_count ≡ 1)) (ok-injective h) tt
  segments-single (raw ∷ records) h =
      let (current, s, h₁) = >>=-eq-ok (segment X J address raw) _ h in
      let (rest, r, h₂) = >>=-eq-ok (segments records) _ h₁ in
      subst (All (λ t. t.trade_count ≡ 1)) (ok-injective h₂)
        (segment_count raw s, segments-single records r)

  fills_from-Extends :
      (last : WorkingFill) (records : List Value) {out : List WorkingFill}
      → fills_from X J address last records ≡ ok out
      → Extends last records out
  unfolding fills_from
  fills_from-Extends last [] h = subst (Extends last []) (ok-injective h) (Extends-nil last)
  fills_from-Extends last (raw ∷ records) {out} h =
      let (current, s, h₁) = >>=-eq-ok (segment X J address raw) _ h in
      elim (Bool-cases (can_merge last current)) [
        | inl same ↦
            let (merged, m, h₂) = >>=-eq-ok (merge last current) _ (rw same at h₁) in
            Extends-merge last current merged raw records out s
              (merge-IsRun last current same (segment_count raw s) m)
              (fills_from-Extends merged records h₂)
        | inr new ↦
            let (rest, r, h₂) =
              >>=-eq-ok (fills_from X J address current records) _ (rw new at h₁) in
            subst (Extends last (raw ∷ records)) (ok-injective h₂) (
              Extends-next last current raw records rest s new
                (fills_from-Extends current records r))
      ]

  -- The fills that a list of records comes to.
  pub Conserves : List Value → List WorkingFill → Type 0
  Conserves records fills =
      (trades : List WorkingFill) × (segments records ≡ ok trades)
      × Splits fills trades
      × All (λ t. t.trade_count ≡ 1) trades
      × Separate fills

  working_fills-Conserves :
      (records : List Value) {fills : List WorkingFill}
      → working_fills X J address records ≡ ok fills
      → Conserves records fills
  unfolding working_fills Conserves segments Separate Extends
  working_fills-Conserves [] h = subst (Conserves []) (ok-injective h) ([], refl, nothing, tt, tt)
  working_fills-Conserves (raw ∷ records) h =
      let (current, s, h₁) = >>=-eq-ok (segment X J address raw) _ h in
      let (fill, fills, more, rest, r, shape, one, split, apart) =
        fills_from-Extends current records h₁ in
      (
        current ∷ (more ++ rest),
        rw (s, r) refl,
        subst (λ o. Splits o (current ∷ (more ++ rest))) (sym shape)
            (run fill current fills more rest one split),
        segments-single (raw ∷ records) {trades = current ∷ (more ++ rest)} (rw (s, r) refl),
        apart,
      )

  -- If `compress_account_trades` answers, then its segments are the texts of fills that cut the
  -- trades that were read, in their order, into runs of one offer, assets, side and price: a fill has
  -- the key and the first time and id of the first trade of its run, the last time and id of the last
  -- one, base amount and counter amount are the sums over the run, and each of its trades counts
  -- once. No two neighbouring
  -- fills have the same offer, assets, side and price.
  pub compress_account_trades-Conserves :
      (records : List Value) {out : List FillSegment}
      → compress_account_trades X J records address ≡ ok out
      → (fills : List WorkingFill) × (finish_all fills ≡ ok out) × Conserves records fills
  unfolding compress_account_trades
  compress_account_trades-Conserves records h =
      let (fills, f, h₁) = >>=-eq-ok (working_fills X J address records) _ h in
      (fills, h₁, working_fills-Conserves records f)
