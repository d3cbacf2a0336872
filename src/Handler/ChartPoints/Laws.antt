-- ===== src/Handler/ChartPoints/Laws.antt =====
-- The chart's points: one for each event, and their prices.
use total.Prelude.{false, List, [], ◌∷◌, map, All, ◌≡◌, refl, ap, arith}
use total.Model.{PricePoint}
use total.Service.Events.{TradeEvent}
use total.Handler.ChartPoints.{
  Sold, ratio_price, least_price, greatest_price, at_least, at_most, clamped, traded,
  chart_points_from, events_to_chart_points,
}
use total.Platform.{Platform}

module _ (P : Platform) where
  open P use {floats}

  -- How float64 orders 0.01 and 0.99.
  pub record IsOrdered : Type 0 where
    pub least : floats.lt (least_price P) (least_price P) ≡ false
    pub greatest : floats.lt (greatest_price P) (greatest_price P) ≡ false
    pub between : floats.lt (greatest_price P) (least_price P) ≡ false

  -- A price that is not below 0.01 and not above 0.99.
  abbrev pub IsShown : PricePoint floats → Type 0
  IsShown p =
      (floats.lt p.price_yes (least_price P) ≡ false)
      × (floats.lt (greatest_price P) p.price_yes ≡ false)

  clamp_bounds :
      (p : floats.Float)
      → IsOrdered
      → (floats.lt (at_most P (at_least P p)) (least_price P) ≡ false)
        × (floats.lt (greatest_price P) (at_most P (at_least P p)) ≡ false)
  unfolding at_most at_least
  clamp_bounds p h = ground (arith, h.least, h.greatest, h.between)

  chart_points_from-timestamps :
      (sold : Sold P) (events : List (TradeEvent P))
      → map (λ p. p.timestamp) (chart_points_from P sold events) ≡ map (λ e. e.timestamp) events
  unfolding chart_points_from
  chart_points_from-timestamps sold [] = refl
  chart_points_from-timestamps sold (evt ∷ more) =
      ap (λ ts. evt.timestamp ∷ ts)
        (chart_points_from-timestamps (clamped P (traded P sold evt)) more)

  chart_points_from-IsShown :
      (sold : Sold P) (events : List (TradeEvent P))
      → IsOrdered
      → All IsShown (chart_points_from P sold events)
  unfolding chart_points_from ratio_price
  chart_points_from-IsShown sold [] h = tt
  chart_points_from-IsShown sold (evt ∷ more) h =
      (clamp_bounds _ h, chart_points_from-IsShown (clamped P (traded P sold evt)) more h)

  -- The chart has one point for each event, in their order and with their times, and where float64
  -- orders 0.01 and 0.99 as the numbers are, no price in it is below 0.01 or above 0.99, whatever
  -- the events say.
  pub events_to_chart_points-IsShown :
      (events : List (TradeEvent P))
      → IsOrdered
      → (map (λ p. p.timestamp) (events_to_chart_points P events) ≡ map (λ e. e.timestamp) events)
        × All IsShown (events_to_chart_points P events)
  unfolding events_to_chart_points
  events_to_chart_points-IsShown events h =
      (chart_points_from-timestamps _ events, chart_points_from-IsShown _ events h)
