-- ===== src/Chart/Sample.antt =====
-- internal/chart/ascii.go: `GenerateSampleHistory`, the history that its tests draw.
use total.Prelude.{
  ℕ, zero, suc, ◌-◌, ◌%◌, Option, none, some, List, [], ◌∷◌, length, All, false, ◌≡◌, refl, ap, sym,
  arith, if◌then◌else◌,
}
use total.Prelude.Int.{ℤ, pos, negsuc}
use total.Model.{PricePoint}
use total.Platform.{Floats}

module _ (F : Floats) where
  -- The constants 0.05 and 0.95.
  abbrev floor_price : F.Float
  floor_price = F.constant 5 2

  abbrev ceiling_price : F.Float
  ceiling_price = F.constant 95 2

  unfoldable pub floored : F.Float → F.Float
  floored p = if F.lt p floor_price then floor_price else p

  unfoldable pub capped : F.Float → F.Float
  capped p = if F.lt ceiling_price p then ceiling_price else p

  -- `(float64(i%7) - 3) / 100.0`
  unfoldable pub change_of : ℕ → F.Float
  change_of i = F.div (F.sub (F.of_int (pos (i % 7))) (F.constant 3 0)) (F.constant 100 0)

  unfoldable pub next_price : ℕ → F.Float → F.Float
  unfolding floored capped change_of
  next_price i price = capped (floored (F.add price (change_of i)))

  -- The loop, from a round on, with so many rounds left. `ago i h` is the time that lies `h` hours
  -- before that of round `i`.
  unfoldable pub sample_history_from : (ℕ → ℕ → ℕ) → ℕ → ℕ → F.Float → ℕ → List (PricePoint F)
  unfolding next_price
  sample_history_from ago hours i price zero = []
  sample_history_from ago hours i price (suc left) =
      let next = next_price i price in
      record { timestamp = ago i (hours - i); price_yes = next }
      ∷ sample_history_from ago hours (suc i) next left

  -- `make` panics for a negative number of hours.
  unfoldable pub generate_sample_history : (ℕ → ℕ → ℕ) → ℤ → F.Float → Option (List (PricePoint F))
  unfolding sample_history_from
  generate_sample_history ago (pos hours) start_price =
      some (sample_history_from ago hours 0 start_price hours)
  generate_sample_history ago (negsuc n) start_price = none

  -- How float64 orders 0.05 and 0.95.
  pub record IsPriceOrder : Type 0 where
    pub least : F.lt floor_price floor_price ≡ false
    pub greatest : F.lt ceiling_price ceiling_price ≡ false
    pub between : F.lt ceiling_price floor_price ≡ false

  abbrev IsWithin : PricePoint F → Type 0
  IsWithin p = (F.lt p.price_yes floor_price ≡ false) × (F.lt ceiling_price p.price_yes ≡ false)

  next_price_bounds :
      (i : ℕ) (price : F.Float)
      → IsPriceOrder
      → (F.lt (next_price i price) floor_price ≡ false)
        × (F.lt ceiling_price (next_price i price) ≡ false)
  unfolding next_price floored capped
  next_price_bounds i price h = ground (arith, h.least, h.greatest, h.between)

  sample_history_from-IsWithin :
      (ago : ℕ → ℕ → ℕ) (hours i : ℕ) (price : F.Float) (left : ℕ)
      → IsPriceOrder
      → (length (sample_history_from ago hours i price left) ≡ left)
        × All IsWithin (sample_history_from ago hours i price left)
  unfolding sample_history_from
  sample_history_from-IsWithin ago hours i price zero h = (refl, tt)
  sample_history_from-IsWithin ago hours i price (suc left) h =
      let (size, within) =
        sample_history_from-IsWithin ago hours (suc i) (next_price i price) left h in
      (ap suc size, (next_price_bounds i price h, within))

  -- A history has one point for each hour, and where float64 orders 0.05 and 0.95 as the numbers are,
  -- no price in it is below 0.05 or above 0.95, whatever the first is.
  generate_sample_history-IsWithin :
      (ago : ℕ → ℕ → ℕ) (hours : ℕ) (start_price : F.Float) (points : List (PricePoint F))
      → IsPriceOrder
      → generate_sample_history ago (pos hours) start_price ≡ some points
      → (length points ≡ hours) × All IsWithin points
  unfolding generate_sample_history
  generate_sample_history-IsWithin ago hours start_price points h e =
      let same : sample_history_from ago hours 0 start_price hours ≡ points = ground (arith, e) in
      rw (sym same) (sample_history_from-IsWithin ago hours 0 start_price hours h)
