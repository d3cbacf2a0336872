-- ===== src/Lmsr/Laws.antt =====
-- How the calculator's operations fit together.
use total.Prelude.{
  Bool-cases, inl, inr, true, false, ◌≡◌, refl, sym, ap, ◌∙◌, if◌then◌else◌, ◌⊎◌, arith,
}
use total.Bytes.{Bytes, text, bytes_eq}
use total.Errors.{Result, both, ok, err}
use total.Model.{zero_float, one_float}
use total.Lmsr.{
  Calculator, CostQuote, price, calculate_cost, calculate_sell_return, after_purchase, quote,
  quote_of,
}
use total.Platform.{Floats}

module _ (F : Floats) where
  -- Adding an amount to a quantity is exact: it can be taken away again, and the sum is neither
  -- negative nor less than the amount.
  pub record IsExact (quantity amount : F.Float) : Type 0 where
    pub undone : F.sub (F.add quantity amount) amount ≡ quantity
    pub not_negative : F.lt (F.add quantity amount) (zero_float F) ≡ false
    pub enough : F.lt (F.add quantity amount) amount ≡ false

  -- Where the additions are exact in float64, selling at once what was bought returns what it cost.
  pub calculate_sell_return-calculate_cost :
      (c : Calculator F) (q_yes q_no amount v : F.Float) (outcome : Bytes)
      → IsExact q_yes amount
      → IsExact q_no amount
      → calculate_cost F c q_yes q_no amount outcome ≡ ok v
      → calculate_sell_return F c
          (after_purchase F q_yes q_no amount outcome).0
          (after_purchase F q_yes q_no amount outcome).1
          amount
          outcome
        ≡ ok v
  unfolding calculate_cost calculate_sell_return after_purchase
  calculate_sell_return-calculate_cost c q_yes q_no amount v outcome y n e =
      elim (Bool-cases (bytes_eq outcome (text "YES"))) [
        | inl buys_yes ↦ ground (arith, buys_yes, y.undone, y.not_negative, y.enough)
        | inr other ↦ elim (Bool-cases (bytes_eq outcome (text "NO"))) [
          | inl buys_no ↦ ground (arith, other, buys_no, n.undone, n.not_negative, n.enough)
          | inr neither ↦ ground (arith, other, neither)
        ]
      ]

  quote_of-ok :
      (amount : F.Float) (outcome : Bytes) (costs : Result F.Float)
      (prices : Result (F.Float × F.Float)) (r : CostQuote F)
      → quote_of F amount outcome costs prices ≡ ok r
      → (costs ≡ ok r.cost)
        × (r.price_per_share ≡ F.div r.cost amount)
        × ((p : F.Float) × (q : F.Float) × (prices ≡ ok (p, q))
            × (r.new_probability
                ≡ (if bytes_eq outcome (text "YES") then p else F.sub (one_float F) p)))
  unfolding quote_of
  quote_of-ok amount outcome (ok v) (ok (p, q)) r e =
      let same = ok_injective e in
      (
        ap (λ x. ok x.cost) same,
        sym (ap (λ x. x.price_per_share) same) ∙ ap (λ x. F.div x amount) (ap (λ x. x.cost) same),
        (p, q, refl, sym (ap (λ x. x.new_probability) same)),
      )
    where
      ok_injective : {x y : CostQuote F} → ok x ≡ ok y → x ≡ y
      ok_injective d = ground arith
  quote_of-ok amount outcome (ok v) (err x) r e = ground arith
  quote_of-ok amount outcome (ok v) (both p x) r e = ground arith
  quote_of-ok amount outcome (err x) prices r e = ground arith
  quote_of-ok amount outcome (both v x) prices r e = ground arith

  calculate_cost-outcome :
      (c : Calculator F) (q_yes q_no amount v : F.Float) (outcome : Bytes)
      → calculate_cost F c q_yes q_no amount outcome ≡ ok v
      → (bytes_eq outcome (text "YES") ≡ true)
        ⊎ ((bytes_eq outcome (text "YES") ≡ false) × (bytes_eq outcome (text "NO") ≡ true))
  unfolding calculate_cost
  calculate_cost-outcome c q_yes q_no amount v outcome e = ground arith

  -- A quote that is given has the cost that is charged, that cost divided by the amount as the price
  -- of a share, and as its new probability the price of YES at the quantities after the purchase,
  -- or, for NO, 1 less that price.
  pub quote-IsConsistent :
      (c : Calculator F) (q_yes q_no amount : F.Float) (outcome : Bytes) (r : CostQuote F)
      → quote F c q_yes q_no amount outcome ≡ ok r
      → (calculate_cost F c q_yes q_no amount outcome ≡ ok r.cost)
        × (r.price_per_share ≡ F.div r.cost amount)
        × ((p : F.Float) × (q : F.Float) × (price F c
                (after_purchase F q_yes q_no amount outcome).0
                (after_purchase F q_yes q_no amount outcome).1
              ≡ ok (p, q))
            × (((bytes_eq outcome (text "YES") ≡ true) × (r.new_probability ≡ p))
                ⊎ ((bytes_eq outcome (text "NO") ≡ true)
                    × (r.new_probability ≡ F.sub (one_float F) p))))
  unfolding quote
  quote-IsConsistent c q_yes q_no amount outcome r e =
      let (charged, share, (p, q, priced, probability)) = quote_of-ok amount outcome _ _ r e in
      (
        charged,
        share,
        (
          p,
          q,
          priced,
          elim (calculate_cost-outcome c q_yes q_no amount r.cost outcome charged) [
            | inl for_yes ↦ inl (for_yes, rw for_yes at probability)
            | inr (not_yes, for_no) ↦ inr (for_no, rw not_yes at probability)
          ],
        ),
      )
