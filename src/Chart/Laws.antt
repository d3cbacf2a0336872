-- ===== src/Chart/Laws.antt =====
-- internal/chart/ascii.go: the picture that is plotted, and when a chart panics.
use total.Prelude.{
  ℕ, zero, suc, ◌+◌, ◌-◌, Option, none, some, List, [], ◌∷◌, length, get_elem?, ltb, leb, ◌==◌,
  if◌then◌else◌, ◌≡◌, ◌≢◌, ◌<◌, ◌≤◌, ◌∙◌, ◌↔◌, lt→ltb, refl, arith, ap, Option-cases, Bool-cases,
  inl, inr,
}
use total.Prelude.Int.{ℤ, pos, negsuc}
use total.Bytes.{Bytes}
use total.Model.{PricePoint}
use total.Platform.{Floats}
use total.Chart.{
  row_of, scaled_price, plot_point, plot_from, label_width, sample_index, sample_from,
  sample_points, clipped, render_price_chart, or_default, default_width, data_width,
}
use total.Chart.Drawing.{
  Canvas, space, block, bar, blank, read, IsCanvas, blank-IsCanvas, read-blank, draw-IsCanvas,
  read-draw, fill_below-IsCanvas, read-fill_below_other, read-fill_below_line,
}

row_of_bound : (height : ℕ) (z : ℤ) (r : ℕ) → row_of (suc height) z ≡ some r → r < suc height
unfolding row_of
row_of_bound height (pos k) r e = ground arith
row_of_bound height (negsuc k) r e = ground arith

-- What a column shows from the top: blanks, a block in the row of the price, and a line below it.
abbrev pub column : Option ℕ → ℕ → ℕ
column none y = space
column (some r) y = if y == r then block else if ltb r y then bar else space

get_elem?-some :
    {A : Type 0} (xs : List A) (i : ℕ) → i < length xs → (a : A) × (get_elem? xs i ≡ some a)
get_elem?-some [] i h = absurd (omega (arith, h))
get_elem?-some (x ∷ xs) zero h = (x, refl)
get_elem?-some (x ∷ xs) (suc i) h = get_elem?-some xs i (omega (arith, h))

clipped-some :
    {A : Type 0} (a : A) (points : List A) (i : ℕ)
    → (p : A) × (clipped (a ∷ points) (pos i) ≡ some p)
unfolding clipped
clipped-some a points i =
    get_elem?-some (a ∷ points) (if leb (length (a ∷ points)) i then length (a ∷ points) - 1 else i)
      (ground arith)

module _ (F : Floats) where
  -- A column beyond the points is blank.
  abbrev pub pixel : ℕ → Option (PricePoint F) → ℕ → ℕ
  pixel height none y = space
  pixel height (some p) y = column (row_of height (scaled_price F height p)) y

  module _ (width below : ℕ) where
    abbrev height : ℕ
    height = suc below

    plot_point-IsCanvas :
        (x : ℕ) (p : PricePoint F) (canvas : Canvas)
        → IsCanvas width height canvas
        → IsCanvas width height (plot_point F width height x p canvas)
    unfolding plot_point
    plot_point-IsCanvas x p canvas h =
        elim (Option-cases (row_of height (scaled_price F height p))) [
          | inl e ↦ rw (e, plot_point) h
          | inr (r, e) ↦ elim (Bool-cases (ltb x width)) [
            | inl wide ↦
                rw (e, wide, plot_point)
                  (fill_below-IsCanvas width height x (suc r) _ _
                    (draw-IsCanvas width height r x block canvas h))
            | inr narrow ↦ rw (e, narrow, plot_point) h
          ]
        ]

    read-plot_point_other :
        (x : ℕ) (p : PricePoint F) (canvas : Canvas) (y' x' : ℕ)
        → IsCanvas width height canvas
        → x' ≢ x
        → read y' x' (plot_point F width height x p canvas) ≡ read y' x' canvas
    unfolding plot_point
    read-plot_point_other x p canvas y' x' h other =
        elim (Option-cases (row_of height (scaled_price F height p))) [
          | inl e ↦ rw (e, plot_point) refl
          | inr (r, e) ↦ elim (Bool-cases (ltb x width)) [
            | inl wide ↦
                let low = row_of_bound below _ r e in
                let one =
                  read-draw width height r x block canvas y' x' h low (ground (arith, wide)) in
                rw (e, wide, plot_point)
                  (read-fill_below_other width height x (suc r) (height - suc r) _ y' x'
                      (draw-IsCanvas width height r x block canvas h) (ground (arith, wide))
                      (omega (arith, low)) (inl other)
                    ∙ ground (arith, one, other))
            | inr narrow ↦ rw (e, narrow, plot_point) refl
          ]
        ]

    read-plot_point :
        (x : ℕ) (p : PricePoint F) (canvas : Canvas) (y : ℕ)
        → IsCanvas width height canvas
        → x < width
        → y < height
        → ((k : ℕ) → k < height → read k x canvas ≡ space)
        → read y x (plot_point F width height x p canvas) ≡ pixel height (some p) y
    unfolding plot_point
    read-plot_point x p canvas y h wide high empty =
        elim (Option-cases (row_of height (scaled_price F height p))) [
          | inl e ↦ rw (e, plot_point) (empty y high)
          | inr (r, e) ↦
              let low = row_of_bound below _ r e in
              let one = read-draw width height r x block canvas y x h low wide in
              let there = draw-IsCanvas width height r x block canvas h in
              rw (e, lt→ltb x width wide, plot_point)
                (elim (Bool-cases (ltb r y)) [
                  | inl under ↦
                      read-fill_below_line width height x (suc r) (height - suc r) _ y there wide
                        (omega (arith, low)) (ground (arith, under)) (omega (arith, low, high))
                        (ground (arith, one, under, empty y high))
                      ∙ ground (arith, under)
                  | inr above ↦
                      read-fill_below_other width height x (suc r) (height - suc r) _ y x there wide
                        (omega (arith, low)) (inr (ground (arith, above)))
                      ∙ ground (arith, one, above, empty y high)
                ])
        ]

    read-plot_from_left :
        (points : List (PricePoint F)) (i : ℕ) (canvas : Canvas) (y x : ℕ)
        → IsCanvas width height canvas
        → x < label_width + i
        → read y x (plot_from F width height i points canvas) ≡ read y x canvas
    unfolding plot_from
    read-plot_from_left [] i canvas y x h left = refl
    read-plot_from_left (p ∷ more) i canvas y x h left =
        read-plot_from_left more (suc i) _ y x (plot_point-IsCanvas (label_width + i) p canvas h)
          (omega (arith, left))
        ∙ read-plot_point_other (label_width + i) p canvas y x h λ e. omega (arith, left, e)

    read-plot_from :
        (points : List (PricePoint F)) (i j : ℕ) (canvas : Canvas) (y x : ℕ)
        → IsCanvas width height canvas
        → x ≡ label_width + i + j
        → x < width
        → y < height
        → ((k c : ℕ) → k < height → label_width + i ≤ c → c < width → read k c canvas ≡ space)
        → read y x (plot_from F width height i points canvas) ≡ pixel height (get_elem? points j) y
    unfolding plot_from
    read-plot_from [] i j canvas y x h at wide high empty = empty y x high (omega (arith, at)) wide
    read-plot_from (p ∷ more) i zero canvas y x h at wide high empty =
        let here : x ≡ label_width + i = omega (arith, at) in
        let drawn = plot_point F width height (label_width + i) p canvas in
        read-plot_from_left more (suc i) drawn y x
          (plot_point-IsCanvas (label_width + i) p canvas h) (omega (arith, at))
        ∙ (ap (λ k. read y k drawn) here
            ∙ read-plot_point (label_width + i) p canvas y h (omega (arith, here, wide)) high
                λ k low. empty k (label_width + i) low (omega arith) (omega (arith, here, wide)))
    read-plot_from (p ∷ more) i (suc j) canvas y x h at wide high empty =
        read-plot_from more (suc i) j _ y x (plot_point-IsCanvas (label_width + i) p canvas h)
          (omega (arith, at)) wide high
          λ k c low left right.
            read-plot_point_other (label_width + i) p canvas k c h (λ e. omega (arith, e, left))
            ∙ empty k c low (omega (arith, left)) right

    plot_from-IsCanvas :
        (points : List (PricePoint F)) (i : ℕ) (canvas : Canvas)
        → IsCanvas width height canvas
        → IsCanvas width height (plot_from F width height i points canvas)
    unfolding plot_from
    plot_from-IsCanvas [] i canvas h = h
    plot_from-IsCanvas (p ∷ more) i canvas h =
        plot_from-IsCanvas more (suc i) _ (plot_point-IsCanvas (label_width + i) p canvas h)

    -- The loop that plots on a blank canvas keeps its dimensions and draws the picture: the cell in
    -- a row and in the column of a number after the labels is that of the point of this number,
    -- which is a block in the row of its price, a line below the block and blank above it, or blank
    -- where there is no such point or its row is off the canvas.
    pub plot_from-pixel :
        (points : List (PricePoint F)) (y j : ℕ)
        → y < height
        → label_width + j < width
        → IsCanvas width height (plot_from F width height 0 points (blank width height))
          × (read y (label_width + j) (plot_from F width height 0 points (blank width height))
              ≡ pixel height (get_elem? points j) y)
    plot_from-pixel points y j high wide = (
      plot_from-IsCanvas points 0 _ (blank-IsCanvas width height),
      read-plot_from points 0 j _ y _ (blank-IsCanvas width height) (omega arith) wide high
          λ k c low left right. read-blank width height k c low right,
    )

  -- The position `int(float64(i) * (float64(count) / float64(target)))` of a round is not negative
  -- where fewer points than there are are sampled, and one at least: the numbers are then finite and
  -- not negative, and the product is `count` at most, up to rounding, which as the length of a slice
  -- is far below 2⁶³.
  abbrev pub SamplesForward : Type 0
  SamplesForward =
      (count target i : ℕ)
      → i < target
      → target < count
      → (k : ℕ) × (sample_index F count target i ≡ pos k)

  sample_from-length :
      (p : PricePoint F) (points : List (PricePoint F)) (target i left : ℕ)
      → SamplesForward
      → i + left ≡ target
      → target < suc (length points)
      → (xs : List (PricePoint F)) × (sample_from F (p ∷ points) target i left ≡ some xs)
        × (length xs ≡ left)
  unfolding sample_from
  sample_from-length p points target i zero forward whole fewer = ([], refl, refl)
  sample_from-length p points target i (suc left) forward whole fewer =
      let (k, at) = forward (suc (length points)) target i (omega (arith, whole)) fewer in
      let (q, found) = clipped-some p points k in
      let (xs, rest, count) =
        sample_from-length p points target (suc i) left forward (omega (arith, whole)) fewer in
      (q ∷ xs, rw (at, found, rest, sample_from) refl, ap suc count)

  -- The sampled points fit the width.
  sample_points-length :
      (p : PricePoint F) (points : List (PricePoint F)) (target : ℕ)
      → SamplesForward
      → (xs : List (PricePoint F)) × (sample_points F (p ∷ points) (pos target) ≡ some xs)
        × (length xs ≤ target)
  unfolding sample_points
  sample_points-length p points target forward =
      elim (Bool-cases (leb (suc (length points)) target)) [
        | inl e ↦ (p ∷ points, rw (e, sample_points) refl, ground (arith, e))
        | inr e ↦
            let (xs, found, count) =
              sample_from-length p points target 0 target forward (omega arith)
                (ground (arith, e)) in
            (xs, rw (e, found, sample_points) refl, omega (arith, count))
      ]

  pub render_price_chart-panics :
      (clock : ℕ → Bytes) (p : PricePoint F) (more : List (PricePoint F)) (width height : ℤ)
      → SamplesForward
      → (render_price_chart F clock (p ∷ more) width height ≡ none)
        ↔ (or_default default_width width < label_width)
  unfolding render_price_chart data_width sample_points
  render_price_chart-panics clock p more width height forward =
      let w = or_default default_width width in
      elim (Bool-cases (leb label_width w)) [
        | inl e ↦
            let (xs, found, count) = sample_points-length p more (w - label_width) forward in
            rw (e, found, render_price_chart, data_width)
              ((λ panic. absurd (ground (arith, panic))), (λ low. absurd (ground (arith, e, low))))
        | inr e ↦
            rw (e, render_price_chart, data_width) ((λ panic. ground (arith, e)), (λ low. refl))
      ]
