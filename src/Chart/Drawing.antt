-- ===== src/Chart/Drawing.antt =====
-- internal/chart/ascii.go: the canvas of `RenderPriceChart`, and what is drawn on it.
use total.Prelude.{
  ℕ, zero, suc, ◌+◌, ◌&&◌, List, [], ◌∷◌, length, get_or, ◌==◌, if◌then◌else◌, replicate, ◌≡◌, ◌≢◌,
  ◌<◌, ◌≤◌, ◌∙◌, ◌⊎◌, ==_iff, refl, arith, ap, All, Bool-cases, inl, inr,
}

abbrev pub Canvas : Type 0
Canvas = List (List ℕ)

abbrev pub space : ℕ
space = 0x20

-- '█' and '│'
abbrev pub block : ℕ
block = 0x2588

abbrev pub bar : ℕ
bar = 0x2502

unfoldable pub blank : ℕ → ℕ → Canvas
blank width height = replicate height (replicate width space)

unfoldable pub update_at : {A : Type 0} → ℕ → (A → A) → List A → List A
update_at i f [] = []
update_at zero f (x ∷ xs) = f x ∷ xs
update_at (suc i) f (x ∷ xs) = x ∷ update_at i f xs

-- `canvas[y][x]`
abbrev pub read : ℕ → ℕ → Canvas → ℕ
read y x canvas = get_or (get_or canvas y []) x 0

-- `canvas[y][x] = c`
unfoldable pub draw : ℕ → ℕ → ℕ → Canvas → Canvas
unfolding update_at
draw y x c canvas = update_at y (update_at x (λ _. c)) canvas

-- The vertical line in a column, from a row on, with so many rows left.
unfoldable pub fill_below : ℕ → ℕ → ℕ → Canvas → Canvas
unfolding draw
fill_below x y zero canvas = canvas
fill_below x y (suc left) canvas =
    fill_below x (suc y) left (if read y x canvas == space then draw y x bar canvas else canvas)

-- So many rows, each of that width.
abbrev pub IsCanvas : ℕ → ℕ → Canvas → Type 0
IsCanvas width height canvas = (length canvas ≡ height) × All (λ row. length row ≡ width) canvas

length-replicate : {A : Type 0} (n : ℕ) (a : A) → length (replicate n a) ≡ n
length-replicate zero a = refl
length-replicate (suc n) a = ap suc (length-replicate n a)

All-replicate : {A : Type 0} (Q : A → Type 0) (n : ℕ) (a : A) → Q a → All Q (replicate n a)
All-replicate Q zero a h = tt
All-replicate Q (suc n) a h = (h, All-replicate Q n a h)

get_or-replicate : {A : Type 0} (n i : ℕ) (a d : A) → i < n → get_or (replicate n a) i d ≡ a
get_or-replicate zero i a d h = absurd (omega (arith, h))
get_or-replicate (suc n) zero a d h = refl
get_or-replicate (suc n) (suc i) a d h = get_or-replicate n i a d (omega (arith, h))

pub blank-IsCanvas : (width height : ℕ) → IsCanvas width height (blank width height)
unfolding blank
blank-IsCanvas width height =
    (length-replicate height _, All-replicate _ height _ (length-replicate width space))

pub read-blank :
    (width height y x : ℕ) → y < height → x < width → read y x (blank width height) ≡ space
unfolding blank
read-blank width height y x hy hx =
    rw (get_or-replicate height y (replicate width space) [] hy)
      (get_or-replicate width x space 0 hx)

length-update_at :
    {A : Type 0} (i : ℕ) (f : A → A) (xs : List A) → length (update_at i f xs) ≡ length xs
unfolding update_at
length-update_at i f [] = refl
length-update_at zero f (x ∷ xs) = refl
length-update_at (suc i) f (x ∷ xs) = ap suc (length-update_at i f xs)

All-update_at :
    {A : Type 0} (Q : A → Type 0) (i : ℕ) (f : A → A) (xs : List A)
    → ((x : A) → Q x → Q (f x))
    → All Q xs
    → All Q (update_at i f xs)
unfolding update_at
All-update_at Q i f [] keep h = tt
All-update_at Q zero f (x ∷ xs) keep (h, hs) = (keep x h, hs)
All-update_at Q (suc i) f (x ∷ xs) keep (h, hs) = (h, All-update_at Q i f xs keep hs)

get_or-update_at :
    {A : Type 0} (i j : ℕ) (f : A → A) (xs : List A) (d : A)
    → i < length xs
    → get_or (update_at i f xs) j d ≡ (if j == i then f (get_or xs j d) else get_or xs j d)
unfolding update_at
get_or-update_at i j f [] d h = absurd (omega (arith, h))
get_or-update_at zero zero f (x ∷ xs) d h = refl
get_or-update_at zero (suc j) f (x ∷ xs) d h = ground arith
get_or-update_at (suc i) zero f (x ∷ xs) d h = ground arith
get_or-update_at (suc i) (suc j) f (x ∷ xs) d h =
    ground (arith, get_or-update_at i j f xs d (omega (arith, h)))

All-get_or :
    {A : Type 0} (Q : A → Type 0) (xs : List A) (i : ℕ) (d : A)
    → i < length xs
    → All Q xs
    → Q (get_or xs i d)
All-get_or Q [] i d h hs = absurd (omega (arith, h))
All-get_or Q (x ∷ xs) zero d h (q, qs) = q
All-get_or Q (x ∷ xs) (suc i) d h (q, qs) = All-get_or Q xs i d (omega (arith, h)) qs

module _ (width height : ℕ) where
  pub draw-IsCanvas :
      (y x c : ℕ) (canvas : Canvas)
      → IsCanvas width height canvas
      → IsCanvas width height (draw y x c canvas)
  unfolding draw
  draw-IsCanvas y x c canvas (h, hs) = (
    omega (arith, h, length-update_at y (update_at x (λ _. c)) canvas),
    All-update_at _ y _ canvas (λ row e. omega (arith, e, length-update_at x (λ (_ : ℕ). c) row))
        hs,
  )

  -- A cell after one is drawn.
  pub read-draw :
      (y x c : ℕ) (canvas : Canvas) (y' x' : ℕ)
      → IsCanvas width height canvas
      → y < height
      → x < width
      → read y' x' (draw y x c canvas) ≡ (if y' == y && x' == x then c else read y' x' canvas)
  unfolding draw
  read-draw y x c canvas y' x' (h, hs) hy hx =
      let row = get_or-update_at y y' (update_at x (λ _. c)) canvas [] (omega (arith, h, hy)) in
      elim (Bool-cases (y' == y)) [
        | inl e ↦
            let same : y' ≡ y = (==_iff y' y).0 e in
            let wide : length (get_or canvas y' []) ≡ width =
              All-get_or _ canvas y' [] (omega (arith, same, h, hy)) hs in
            rw (row, e)
              (get_or-update_at x x' (λ _. c) (get_or canvas y' []) 0 (omega (arith, wide, hx)))
        | inr e ↦ rw (row, e) refl
      ]

  pub fill_below-IsCanvas :
      (x y left : ℕ) (canvas : Canvas)
      → IsCanvas width height canvas
      → IsCanvas width height (fill_below x y left canvas)
  unfolding fill_below
  fill_below-IsCanvas x y zero canvas h = h
  fill_below-IsCanvas x y (suc left) canvas h =
      fill_below-IsCanvas x (suc y) left _ (elim (Bool-cases (read y x canvas == space)) [
        | inl e ↦ rw e (draw-IsCanvas y x bar canvas h)
        | inr e ↦ rw e h
      ])

  -- The cells in another column, and those above the line, are as they were.
  pub read-fill_below_other :
      (x y left : ℕ) (canvas : Canvas) (y' x' : ℕ)
      → IsCanvas width height canvas
      → x < width
      → y + left ≤ height
      → (x' ≢ x) ⊎ (y' < y)
      → read y' x' (fill_below x y left canvas) ≡ read y' x' canvas
  unfolding fill_below
  read-fill_below_other x y zero canvas y' x' h hx hy other = refl
  read-fill_below_other x y (suc left) canvas y' x' h hx hy other =
      let there = draw-IsCanvas y x bar canvas h in
      let one = read-draw y x bar canvas y' x' h (omega (arith, hy)) hx in
      let further : (x' ≢ x) ⊎ (y' < suc y) = ground (arith, other) in
      elim (Bool-cases (read y x canvas == space)) [
        | inl e ↦ rw e (
            read-fill_below_other x (suc y) left (draw y x bar canvas) y' x' there hx
              (omega (arith, hy)) further
            ∙ ground (arith, one, other))
        | inr e ↦
            rw e
              (read-fill_below_other x (suc y) left canvas y' x' h hx (omega (arith, hy)) further)
      ]

  -- A blank cell on the line becomes a part of it.
  pub read-fill_below_line :
      (x y left : ℕ) (canvas : Canvas) (y' : ℕ)
      → IsCanvas width height canvas
      → x < width
      → y + left ≤ height
      → y ≤ y'
      → y' < y + left
      → read y' x canvas ≡ space
      → read y' x (fill_below x y left canvas) ≡ bar
  unfolding fill_below
  read-fill_below_line x y zero canvas y' h hx hy low high e = absurd (omega (arith, low, high))
  read-fill_below_line x y (suc left) canvas y' h hx hy low high e =
      let there = draw-IsCanvas y x bar canvas h in
      let one = read-draw y x bar canvas y' x h (omega (arith, hy)) hx in
      let room : suc y + left ≤ height = omega (arith, hy) in
      elim (Bool-cases (read y x canvas == space)) [
        | inl now ↦ elim (Bool-cases (y' == y)) [
          | inl at ↦ rw now (
              read-fill_below_other x (suc y) left (draw y x bar canvas) y' x there hx room
                (inr (ground (arith, at)))
              ∙ ground (arith, one, at))
          | inr later ↦ rw now (
              read-fill_below_line x (suc y) left (draw y x bar canvas) y' there hx room
                (ground (arith, low, later)) (omega (arith, high)) (ground (arith, one, later, e)))
        ]
        | inr taken ↦ elim (Bool-cases (y' == y)) [
          | inl at ↦
              absurd (ground (arith, taken, e, ap (λ k. read k x canvas) ((==_iff y' y).0 at)))
          | inr later ↦ rw taken (
              read-fill_below_line x (suc y) left canvas y' h hx room (ground (arith, low, later))
                (omega (arith, high)) e)
        ]
      ]
