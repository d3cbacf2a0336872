-- ===== src/Lmsr.antt =====
-- internal/lmsr/calculator.go: the logarithmic market scoring rule in float64.
pub mod Laws
use total.Prelude.{◌||◌, if◌then◌else◌}
use total.Bytes.{Bytes, text, bytes_eq}
use total.Errors.{
  sentinel, Result, ok, err, both, lmsr_invalid_outcome, negative_amount, invalid_liquidity,
  negative_quantities, insufficient_tokens,
}
use total.Model.{zero_float, one_float}
use total.Platform.{Floats}

module _ (F : Floats) where
  pub record Calculator : Type 0 where
    pub b : F.Float

  unfoldable pub new_calculator : F.Float → Result Calculator
  new_calculator liquidity =
      if F.le liquidity (zero_float F)
      then err (sentinel invalid_liquidity)
      else ok (record { b = liquidity })

  -- C(q) = b · (max/b + ln(exp((yes − max)/b) + exp((no − max)/b)))
  unfoldable pub cost : Calculator → F.Float → F.Float → F.Float
  cost c q_yes q_no =
      let max = F.larger q_yes q_no in
      F.mul c.b (
        F.add (F.div max c.b) (
          F.log (F.add (F.exp (F.div (F.sub q_yes max) c.b)) (F.exp (F.div (F.sub q_no max) c.b)))))

  unfoldable pub price : Calculator → F.Float → F.Float → Result (F.Float × F.Float)
  price c q_yes q_no =
      if F.lt q_yes (zero_float F) || F.lt q_no (zero_float F)
      then err (sentinel negative_quantities)
      else let exp_yes = F.exp (F.div q_yes c.b) in
        let exp_no = F.exp (F.div q_no c.b) in
        let sum = F.add exp_yes exp_no in ok (F.div exp_yes sum, F.div exp_no sum)

  unfoldable pub calculate_cost : Calculator → F.Float → F.Float → F.Float → Bytes → Result F.Float
  unfolding cost
  calculate_cost c q_yes q_no amount outcome =
      if F.le amount (zero_float F)
      then err (sentinel negative_amount)
      else if F.lt q_yes (zero_float F) || F.lt q_no (zero_float F)
      then err (sentinel negative_quantities)
      else let before = cost c q_yes q_no in
        if bytes_eq outcome (text "YES")
        then ok (F.sub (cost c (F.add q_yes amount) q_no) before)
        else if bytes_eq outcome (text "NO")
        then ok (F.sub (cost c q_yes (F.add q_no amount)) before)
        else err (sentinel lmsr_invalid_outcome)

  unfoldable pub calculate_sell_return :
      Calculator → F.Float → F.Float → F.Float → Bytes → Result F.Float
  unfolding cost
  calculate_sell_return c q_yes q_no amount outcome =
      if F.le amount (zero_float F)
      then err (sentinel negative_amount)
      else if F.lt q_yes (zero_float F) || F.lt q_no (zero_float F)
      then err (sentinel negative_quantities)
      else let before = cost c q_yes q_no in
        if bytes_eq outcome (text "YES")
        then (if F.lt q_yes amount
            then err (sentinel insufficient_tokens)
            else ok (F.sub before (cost c (F.sub q_yes amount) q_no)))
        else if bytes_eq outcome (text "NO")
        then (if F.lt q_no amount
            then err (sentinel insufficient_tokens)
            else ok (F.sub before (cost c q_yes (F.sub q_no amount))))
        else err (sentinel lmsr_invalid_outcome)

  -- b · ln 2
  unfoldable pub initial_liquidity : Calculator → F.Float
  initial_liquidity c = F.mul c.b (F.log (F.constant 2 0))

  pub record CostQuote : Type 0 where
    pub cost : F.Float
    pub price_per_share : F.Float
    pub new_probability : F.Float

  -- The quantities after a purchase; 0 and 0 for an outcome that is neither.
  unfoldable pub after_purchase : F.Float → F.Float → F.Float → Bytes → F.Float × F.Float
  after_purchase q_yes q_no amount outcome =
      if bytes_eq outcome (text "YES")
      then (F.add q_yes amount, q_no)
      else if bytes_eq outcome (text "NO")
      then (q_yes, F.add q_no amount)
      else (zero_float F, zero_float F)

  -- The end of `Quote`, on what the cost and the price at the quantities after the purchase are.
  unfoldable pub quote_of :
      F.Float → Bytes → Result F.Float → Result (F.Float × F.Float) → Result CostQuote
  quote_of amount outcome (err e) p = err e
  quote_of amount outcome (both v e) p = err e
  quote_of amount outcome (ok v) (err e) = err e
  quote_of amount outcome (ok v) (both p e) = err e
  quote_of amount outcome (ok v) (ok p) = ok (record {
    cost = v;
    price_per_share = F.div v amount;
    new_probability = if bytes_eq outcome (text "YES") then p.0 else F.sub (one_float F) p.0;
  })

  unfoldable pub quote : Calculator → F.Float → F.Float → F.Float → Bytes → Result CostQuote
  unfolding quote_of
  quote c q_yes q_no amount outcome =
      quote_of amount outcome (calculate_cost c q_yes q_no amount outcome) (
        price c (after_purchase q_yes q_no amount outcome).0
          (after_purchase q_yes q_no amount outcome).1)
