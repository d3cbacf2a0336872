-- ===== src/Handler/Detail/Laws.antt =====
-- internal/handler/market.go: the page of a market never panics in its chart.
use total.Prelude.{List, [], ◌∷◌, some, ◌≡◌, refl, arith, Option-cases, inl, inr}
use total.Prelude.Int.{pos}
use total.Bytes.{Bytes}
use total.Chart.{default_width, default_height, or_default}
use total.Chart.Laws.{SamplesForward, render_price_chart-panics}
use total.Service.Events.{TradeEvent}
use total.Handler.ChartPoints.{events_to_chart_points, chart_points_from}
use total.Handler.Web.{Web}
use total.Handler.Detail.{chart_of}
use total.Platform.{Platform}

module _ (P : Platform) (W : Web P) where
  pub chart_of-some :
      (events : List (TradeEvent P))
      → SamplesForward P.floats
      → (chart : Bytes) × (chart_of P W events ≡ some chart)
  unfolding chart_of events_to_chart_points chart_points_from or_default
  chart_of-some [] forward = ([], refl)
  chart_of-some (evt ∷ more) forward = elim (Option-cases (chart_of P W (evt ∷ more))) [
    | inr found ↦ found
    | inl panic ↦ absurd (
        omega (
          arith,
          (render_price_chart-panics P.floats W.clock _ _ (pos default_width) (pos default_height)
                forward).0
              panic,
        ))
  ]
