-- ===== src/Handler/ChartPoints.antt =====
-- internal/handler/market.go: `eventsToChartPoints`.
pub mod Laws
use total.Prelude.{List, [], ◌∷◌, if◌then◌else◌}
use total.Bytes.{Bytes, text, bytes_eq}
use total.Model.{zero_float, PricePoint}
use total.Service.Events.{TradeEvent}
use total.Platform.{Platform}

module _ (P : Platform) where
  open P use {floats}

  -- The tokens sold so far.
  pub record Sold : Type 0 where
    pub yes_sold : floats.Float
    pub no_sold : floats.Float

  -- An event adds its amount to an outcome or takes it off.
  unfoldable pub traded : Sold → TradeEvent P → Sold
  traded sold evt =
      if bytes_eq evt.kind (text "buy")
      then (if bytes_eq evt.outcome (text "YES")
          then record sold { yes_sold = floats.add sold.yes_sold evt.amount }
          else record sold { no_sold = floats.add sold.no_sold evt.amount })
      else if bytes_eq evt.kind (text "sell")
      then (if bytes_eq evt.outcome (text "YES")
          then record sold { yes_sold = floats.sub sold.yes_sold evt.amount }
          else record sold { no_sold = floats.sub sold.no_sold evt.amount })
      else sold

  -- `if x < 0 { x = 0 }`
  unfoldable pub non_negative : floats.Float → floats.Float
  non_negative x = if floats.lt x (zero_float floats) then zero_float floats else x

  unfoldable pub clamped : Sold → Sold
  unfolding non_negative
  clamped sold = record {
    yes_sold = non_negative sold.yes_sold;
    no_sold = non_negative sold.no_sold;
  }

  -- The constants 0.5, 0.01 and 0.99.
  abbrev pub even_price : floats.Float
  even_price = floats.constant 5 1

  abbrev pub least_price : floats.Float
  least_price = floats.constant 1 2

  abbrev pub greatest_price : floats.Float
  greatest_price = floats.constant 99 2

  unfoldable pub at_least : floats.Float → floats.Float
  at_least p = if floats.lt p least_price then least_price else p

  unfoldable pub at_most : floats.Float → floats.Float
  at_most p = if floats.lt greatest_price p then greatest_price else p

  unfoldable pub ratio_price : Sold → floats.Float
  unfolding at_least at_most
  ratio_price sold =
      let total = floats.add sold.yes_sold sold.no_sold in
      at_most (
        at_least (
          if floats.lt (zero_float floats) total
          then floats.div sold.yes_sold total
          else even_price))

  -- The loop over the events.
  unfoldable pub chart_points_from : Sold → List (TradeEvent P) → List (PricePoint floats)
  unfolding traded clamped ratio_price
  chart_points_from sold [] = []
  chart_points_from sold (evt ∷ more) =
      let next = clamped (traded sold evt) in
      record { timestamp = evt.timestamp; price_yes = ratio_price next }
      ∷ chart_points_from next more

  unfoldable pub events_to_chart_points : List (TradeEvent P) → List (PricePoint floats)
  unfolding chart_points_from
  events_to_chart_points events =
      chart_points_from (record { yes_sold = zero_float floats; no_sold = zero_float floats })
        events
