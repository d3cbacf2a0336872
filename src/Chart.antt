-- ===== src/Chart.antt =====
-- internal/chart/ascii.go: the text charts. A canvas is a list of rows of characters, and `none` is
-- a panic: a negative count, or an index out of range.
pub mod Drawing
pub mod Laws
pub mod Sample
use total.Prelude.{
  ℕ, zero, suc, ◌+◌, ◌-◌, ◌*◌, String, Option, none, some, List, [], ◌∷◌, ◌++◌, length, get_elem?,
  drop, ltb, leb, if◌then◌else◌, replicate,
}
use total.Prelude.Int.{ℤ, pos, negsuc}
use total.Bytes.{Bytes, text, utf8}
use total.Model.{zero_float, one_float, PricePoint}
use total.Platform.{Floats}
use total.Chart.Drawing.{Canvas, blank, draw, fill_below, block}

abbrev pub default_width : ℕ
default_width = 60

abbrev pub default_height : ℕ
default_height = 15

abbrev pub label_width : ℕ
label_width = 6

-- `strings.Repeat(s, n)`
unfoldable pub repeat : Bytes → ℕ → Bytes
repeat s zero = []
repeat s (suc n) = s ++ repeat s n

-- `string(runes)`
unfoldable pub encoded : List ℕ → Bytes
unfolding utf8
encoded [] = []
encoded (c ∷ cs) = utf8 c ++ encoded cs

-- Padding on the left up to a width, as in `%4.0f`.
unfoldable pub padded : ℕ → Bytes → Bytes
padded n s = replicate (n - length s) b' ' ++ s

-- `if n <= 0 { n = d }`
unfoldable pub or_default : ℕ → ℤ → ℕ
or_default d (pos zero) = d
or_default d (pos (suc n)) = suc n
or_default d (negsuc n) = d

-- y := height - 1 - scaled, where 0 <= y && y < height.
unfoldable pub row_of : ℕ → ℤ → Option ℕ
row_of height (pos k) = if leb k (height - 1) then some (height - 1 - k) else none
row_of height (negsuc k) = none

-- `points[idx]`, after `if idx >= len(points) { idx = len(points) - 1 }`.
unfoldable pub clipped {ℓ} : {A : Type ℓ} → List A → ℤ → Option A
clipped points (pos i) = get_elem? points (if leb (length points) i then length points - 1 else i)
clipped points (negsuc i) = none

abbrev pub prepend {ℓ} : {A : Type ℓ} → Option A → Option (List A) → Option (List A)
prepend none rest = none
prepend (some x) none = none
prepend (some x) (some xs) = some (x ∷ xs)

module _ (F : Floats) where
  -- `int(float64(i) * step)`
  unfoldable pub sample_index : ℕ → ℕ → ℕ → ℤ
  sample_index count target i =
      F.truncate (F.mul (F.of_int (pos i)) (F.div (F.of_int (pos count)) (F.of_int (pos target))))

  -- The loop of `samplePoints`, from an index on, with so many rounds left.
  unfoldable pub sample_from : List (PricePoint F) → ℕ → ℕ → ℕ → Option (List (PricePoint F))
  unfolding sample_index clipped
  sample_from points target i zero = some []
  sample_from points target i (suc left) =
      prepend (clipped points (sample_index (length points) target i))
        (sample_from points target (suc i) left)

  -- `make` panics for a negative count, to which no list is as short.
  unfoldable pub sample_points : List (PricePoint F) → ℤ → Option (List (PricePoint F))
  unfolding sample_from
  sample_points points (pos target) =
      if leb (length points) target then some points else sample_from points target 0 target
  sample_points points (negsuc n) = none

  -- `int(normalizedPrice * float64(height-1))`
  unfoldable pub scaled_price : ℕ → PricePoint F → ℤ
  scaled_price height point =
      let least = F.constant 0 1 in
      let greatest = F.constant 10 1 in
      F.truncate (
        F.mul (F.div (F.sub point.price_yes least) (F.sub greatest least))
          (F.of_int (pos (height - 1))))

  -- The plotting of one point in a column.
  unfoldable pub plot_point : ℕ → ℕ → ℕ → PricePoint F → Canvas → Canvas
  unfolding row_of scaled_price
  plot_point width height x point canvas = elim (row_of height (scaled_price height point)) [
    | none ↦ canvas
    | some y ↦
        if ltb x width
        then fill_below x (suc y) (height - suc y) (draw y x block canvas)
        else canvas
  ]

  -- The loop over the sampled points.
  unfoldable pub plot_from : ℕ → ℕ → ℕ → List (PricePoint F) → Canvas → Canvas
  unfolding plot_point
  plot_from width height i [] canvas = canvas
  plot_from width height i (point ∷ more) canvas =
      plot_from width height (suc i) more (plot_point width height (label_width + i) point canvas)

  -- A row and its price label.
  unfoldable pub render_row : ℕ → ℕ → List ℕ → Bytes
  unfolding padded encoded
  render_row height i row =
      let greatest = F.constant 10 1 in
      let least = F.constant 0 1 in
      let price =
        F.sub greatest
          (F.mul (F.div (F.of_int (pos i)) (F.of_int (pos (height - 1)))) (F.sub greatest least)) in
      padded 4 (F.show_fixed 0 (F.mul price (F.of_int (pos 100))))
      ++ (text "%" ++ (text " │" ++ (encoded (drop label_width row) ++ text "\n")))

  unfoldable pub render_rows : ℕ → ℕ → Canvas → Bytes
  unfolding render_row
  render_rows height i [] = []
  render_rows height i (row ∷ rows) = render_row height i row ++ render_rows height (suc i) rows

  abbrev pub last_of : PricePoint F → List (PricePoint F) → PricePoint F
  last_of p [] = p
  last_of p (q ∷ rest) = last_of q rest

  -- `clock` is `Format("15:04")` of a time.
  unfoldable pub time_labels : (ℕ → Bytes) → ℕ → PricePoint F → PricePoint F → Bytes
  unfolding repeat
  time_labels clock data_width p q =
      let first = clock p.timestamp in
      let last = clock q.timestamp in
      repeat (text " ") (label_width + 1)
      ++ (first
          ++ (repeat (text " ") (data_width - length first - length last) ++ (last ++ text "\n")))

  -- The text around a canvas.
  unfoldable pub render_canvas : (ℕ → Bytes) → ℕ → ℕ → PricePoint F → PricePoint F → Canvas → Bytes
  unfolding repeat render_rows time_labels
  render_canvas clock width height p q canvas =
      text "YES Price (Probability)\n"
      ++ (repeat (text "─") width
          ++ (text "\n"
              ++ (render_rows height 0 canvas
                  ++ (repeat (text " ") label_width
                      ++ (text "└"
                          ++ (repeat (text "─") (width - label_width)
                              ++ (text "\n" ++ time_labels clock (width - label_width) p q)))))))

  -- `width - labelWidth`
  unfoldable pub data_width : ℕ → ℤ
  data_width width =
      if leb label_width width then pos (width - label_width) else negsuc (label_width - width - 1)

  unfoldable pub render_price_chart : (ℕ → Bytes) → List (PricePoint F) → ℤ → ℤ → Option Bytes
  unfolding sample_points plot_from render_canvas data_width or_default blank
  render_price_chart clock [] width height = some (text "No price data available")
  render_price_chart clock (p ∷ more) width height =
      let w = or_default default_width width in
      let h = or_default default_height height in
      elim (sample_points (p ∷ more) (data_width w)) [
        | none ↦ none
        | some samples ↦
            some (render_canvas clock w h p (last_of p more) (plot_from w h 0 samples (blank w h)))
      ]

  -- The counts of the two parts of a bar, unless one is negative.
  unfoldable pub bar_parts : ℕ → ℤ → Option (ℕ × ℕ)
  bar_parts width (pos y) = if leb y width then some (y, width - y) else none
  bar_parts width (negsuc y) = none

  unfoldable pub bar_line : String → F.Float → String → ℕ → String → ℕ → Bytes
  unfolding padded repeat
  bar_line name price left m right n =
      text name
      ++ (padded 5 (F.show_fixed 1 (F.mul price (F.of_int (pos 100))))
          ++ (text "% " ++ (repeat (text left) m ++ (repeat (text right) n ++ text "\n"))))

  unfoldable pub render_simple_bar : F.Float → F.Float → ℤ → Option Bytes
  unfolding bar_parts bar_line or_default
  render_simple_bar price_yes price_no width =
      let w = or_default 50 width in
      elim (bar_parts w (F.truncate (F.mul price_yes (F.of_int (pos w))))) [
        | none ↦ none
        | some (m, n) ↦
            some (bar_line "YES " price_yes "█" m "░" n ++ bar_line "NO  " price_no "░" m "█" n)
      ]
