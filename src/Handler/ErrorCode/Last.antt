-- ===== src/Handler/ErrorCode/Last.antt =====
-- `extractLastErrorCode`: the last code of a text is the one that is found.
use total.Prelude.{
  ℕ, zero, suc, ◌≤◌, ◌<◌, true, false, none, some, [], ◌∷◌, ◌++◌, length, length-append, take, drop,
  reverse, take-append, ◌≡◌, ◌≢◌, refl, sym, ◌∙◌, ap, arith, Bool-cases, inl, inr, ◌==◌, ==_iff,
}
use mathlib.Core.Path.{subst}
use mathlib.Core.List.{append_assoc, append-nil, reverse-append}
use native.Mathlib.Nat.{le_refl}
use total.Prelude.Int.{ℤ, negsuc}
use total.Bytes.{Bytes, text, utf8, index, has_prefix, has_suffix, parse_int}
use total.Handler.ErrorCode.{marker, closing, parsed_or, extract_last_error_code}
use total.Handler.ErrorCode.Laws.{
  index-Stands, drop-Stands, behind, extract_from, extract_from_step, scan_nowhere,
}

has_prefix-append : (p v : Bytes) → has_prefix (p ++ v) p ≡ true
unfolding has_prefix
has_prefix-append [] v = refl
has_prefix-append (c ∷ p) v = ground (arith, has_prefix-append p v)

index_here : (s p : Bytes) → has_prefix s p ≡ true → index s p ≡ some 0
unfolding index
index_here [] p h = rw h refl
index_here (c ∷ s) p h = rw h refl

-- What stands in a text is found, there or before.
index-append : (u p v : Bytes) → (k : ℕ) × (index (u ++ (p ++ v)) p ≡ some k) × (k ≤ length u)
unfolding index
index-append [] p v = (0, index_here (p ++ v) p (has_prefix-append p v), omega arith)
index-append (c ∷ u) p v = elim (Bool-cases (has_prefix (c ∷ (u ++ (p ++ v))) p)) [
  | inl here ↦ (0, index_here _ p here, omega arith)
  | inr not_here ↦
      let (k, found, bound) = index-append u p v in
      (suc k, rw (not_here, found, index) refl, omega (arith, bound))
]

-- The first closing bracket is that behind a text which has none.
index-closing :
    (body after : Bytes)
    → index body closing ≡ none
    → index (body ++ (closing ++ after)) closing ≡ some (length body)
unfolding index has_prefix closing text utf8
index-closing [] after h = refl
index-closing (c ∷ body) after h =
    let later : index body closing ≡ none = ground (arith, h) in
    ground (arith, h, index-closing body after later)

index_tail : (c : ℕ) (s p : Bytes) → index (c ∷ s) p ≡ none → index s p ≡ none
unfolding index
index_tail c s p h = ground (arith, h)

index-drop_one : (s p : Bytes) → index s p ≡ none → index (drop 1 s) p ≡ none
index-drop_one [] p h = h
index-drop_one (c ∷ s) p h = index_tail c s p h

-- Two splittings of a text, the first of them further on.
align :
    (u x t w : Bytes)
    → u ++ t ≡ x ++ w
    → length x ≤ length u
    → (z : Bytes) × (u ≡ x ++ z) × (w ≡ z ++ t)
align u [] t w e h = (u, refl, sym e)
align [] (c ∷ x) t w e h = absurd (omega (arith, h))
align (d ∷ u) (c ∷ x) t w e h =
    let (z, split, rest) = align u x t w (ground (arith, e)) (omega (arith, h)) in
    (z, ground (arith, e, split), rest)

-- What begins with an E cannot begin within bytes that are none.
clear :
    (p y z q : Bytes)
    → index p (b'E' ∷ []) ≡ none
    → p ++ y ≡ z ++ (b'E' ∷ q)
    → (z' : Bytes) × (z ≡ p ++ z')
unfolding index has_prefix
clear [] y z q h e = (z, refl)
clear (c ∷ p) y [] q h e = absurd (ground (arith, e, h))
clear (c ∷ p) y (d ∷ z) q h e =
    let (z', split) = clear p y z q (index_tail c p (b'E' ∷ []) h) (ground (arith, e)) in
    (z', ground (arith, e, split))

-- Markers do not overlap.
marker-apart :
    (y z rest : Bytes)
    → marker ++ y ≡ z ++ (marker ++ rest)
    → z ≢ []
    → (z' : Bytes) × (z ≡ marker ++ z')
unfolding marker text utf8 index has_prefix
marker-apart y [] rest e h = absurd (h refl)
marker-apart y (c ∷ z) rest e h =
    let (z', split) = clear (drop 1 marker) y z (drop 1 marker ++ rest) refl (ground (arith, e)) in
    (z', ground (arith, e, split))

module _ (body after : Bytes) (code : ℤ) (parsed : parse_int body ≡ some code)
    (closed : index body closing ≡ none)
    (no_more : index (body ++ (closing ++ after)) marker ≡ none) where
  abbrev rest : Bytes
  rest = body ++ (closing ++ after)

  -- The marker does not stand at once behind another one.
  abbrev IsApart : Bytes → Type 0
  IsApart before = (x : Bytes) → before ≢ x ++ marker

  IsApart-later : (x z : Bytes) (c : ℕ) → IsApart (x ++ (marker ++ (c ∷ z))) → IsApart z
  IsApart-later x z c h w e = h (x ++ (marker ++ (c ∷ w))) (
      ap (λ u. x ++ (marker ++ (c ∷ u))) e
      ∙ ap (λ u. x ++ u) (sym (append_assoc marker (c ∷ w) marker))
      ∙ sym (append_assoc x (marker ++ (c ∷ w)) marker))

  -- The code is found where its marker is the first.
  found_here :
      (last : ℤ) (before : Bytes)
      → index (before ++ (marker ++ rest)) marker ≡ some (length before)
      → extract_from last (before ++ (marker ++ rest)) ≡ code
  found_here last before found =
      let s = before ++ (marker ++ rest) in
      let at : behind s (length before) ≡ rest =
        drop-Stands s marker (length before) (before, rest, refl, refl) in
      let step =
        extract_from_step last s (length before) (length body) found
          (ap (λ t. index t closing) at ∙ index-closing body after closed) in
      let taken : take (length body) (behind s (length before)) ≡ body =
        ap (λ t. take (length body) t) at ∙ take-append body (closing ++ after) in
      step
      ∙ ap (λ t. extract_from (parsed_or last (parse_int t)) (drop 1 (behind s (length before))))
          taken
      ∙ ap (λ o. extract_from (parsed_or last o) (drop 1 (behind s (length before)))) parsed
      ∙ ap (λ t. extract_from code (drop 1 t)) at
      ∙ scan_nowhere _ (drop 1 rest) code (index-drop_one rest marker no_more)

  abbrev tail : Bytes
  tail = marker ++ rest

  -- The search goes on behind a marker that stands earlier, and the byte after it.
  passed :
      (last : ℤ) (x z : Bytes) (c : ℕ)
      → index ((x ++ (marker ++ (c ∷ z))) ++ tail) marker ≡ some (length x)
      → (next : ℤ) × (extract_from last ((x ++ (marker ++ (c ∷ z))) ++ tail)
          ≡ extract_from next (z ++ tail))
  passed last x z c found =
      let s = (x ++ (marker ++ (c ∷ z))) ++ tail in
      let split : s ≡ x ++ (marker ++ ((c ∷ z) ++ tail)) =
        append_assoc x (marker ++ (c ∷ z)) tail
        ∙ ap (λ t. x ++ t) (append_assoc marker (c ∷ z) tail) in
      let at : behind s (length x) ≡ (c ∷ z) ++ tail =
        drop-Stands s marker (length x) (x, (c ∷ z) ++ tail, split, refl) in
      let whole : ((c ∷ z) ++ (marker ++ body)) ++ (closing ++ after) ≡ (c ∷ z) ++ tail =
        append_assoc (c ∷ z) (marker ++ body) (closing ++ after)
        ∙ ap (λ t. (c ∷ z) ++ t) (append_assoc marker body (closing ++ after)) in
      let (j, ended, _) = index-append ((c ∷ z) ++ (marker ++ body)) closing after in
      let ends = ap (λ t. index t closing) (at ∙ sym whole) ∙ ended in
      (
        _,
        extract_from_step last s (length x) j found ends
            ∙ ap
                (λ t.
                  extract_from (parsed_or last (parse_int (take j (behind s (length x)))))
                    (drop 1 t))
                at,
      )

  Found : ℤ → Bytes → Type 0
  Found last before = extract_from last (before ++ tail) ≡ code

  reported_behind :
      (fuel : ℕ) (last : ℤ) (before x z : Bytes)
      → before ≡ x ++ (marker ++ z)
      → index (before ++ tail) marker ≡ some (length x)
      → length before ≤ suc fuel
      → IsApart before
      → ((next : ℤ) (b : Bytes) → length b ≤ fuel → IsApart b → Found next b)
      → Found last before
  unfolding Found
  reported_behind fuel last before x [] e found h apart more =
      absurd (apart x (e ∙ ap (λ t. x ++ t) (append-nil marker)))
  reported_behind fuel last before x (c ∷ z) e found h apart more =
      let (next, step) = passed last x z c (ap (λ b. index (b ++ tail) marker) (sym e) ∙ found) in
      let short : length z ≤ fuel = omega (
        arith,
        h,
        ap length e,
        length-append x (marker ++ (c ∷ z)),
        length-append marker (c ∷ z),
      ) in
      ap (λ b. extract_from last (b ++ tail)) e
      ∙ (step ∙ more next z short (IsApart-later x z c (subst IsApart e apart)))

  reported_earlier :
      (fuel : ℕ) (last : ℤ) (before : Bytes) (k : ℕ)
      → k < length before
      → index (before ++ tail) marker ≡ some k
      → length before ≤ suc fuel
      → IsApart before
      → ((next : ℤ) (b : Bytes) → length b ≤ fuel → IsApart b → Found next b)
      → Found last before
  reported_earlier fuel last before k bound found h apart more =
      let (x, y, split, count) = index-Stands (before ++ tail) marker k found in
      let (z, here, behind_it) =
        align before x tail (marker ++ y) split (omega (arith, bound, count)) in
      let further : z ≢ [] = λ none_left.
        omega (arith, bound, count, ap length here, length-append x z, ap length none_left) in
      let (z', apart_from) = marker-apart y z rest behind_it further in
      reported_behind fuel last before x z' (here ∙ ap (λ t. x ++ t) apart_from)
        (found ∙ ap (λ n. some n) (sym count)) h apart more

  -- What markers before it yield is forgotten.
  reported_from :
      (fuel : ℕ) (last : ℤ) (before : Bytes)
      → length before ≤ fuel
      → IsApart before
      → Found last before
  unfolding Found
  reported_from zero last before h apart =
      let (k, found, bound) = index-append before marker rest in
      found_here last before (found ∙ ap (λ n. some n) (omega (arith, h, bound)))
  reported_from (suc fuel) last before h apart =
      let (k, found, bound) = index-append before marker rest in
      elim (Bool-cases (k == length before)) [
        | inl e ↦ found_here last before (found ∙ ap (λ n. some n) ((==_iff k (length before)).0 e))
        | inr e ↦
            reported_earlier fuel last before k (ground (arith, bound, e)) found h apart
              (reported_from fuel)
      ]

has_suffix-append : (x p : Bytes) → has_suffix (x ++ p) p ≡ true
unfolding has_suffix
has_suffix-append x p =
    ap (λ t. has_prefix t (reverse p)) (reverse-append x p)
    ∙ has_prefix-append (reverse p) (reverse x)

-- Where a code stands in a text as `Error(Contract, #code)`, with no marker after it, and not at once
-- behind a marker (the search skips a byte behind each), it is the one that is reported, whatever
-- codes stand before it.
pub extract_last_error_code_last :
    (before body after : Bytes) (code : ℤ)
    → parse_int body ≡ some code
    → index body closing ≡ none
    → index (body ++ (closing ++ after)) marker ≡ none
    → has_suffix before marker ≡ false
    → extract_last_error_code (before ++ (marker ++ (body ++ (closing ++ after)))) ≡ code
unfolding extract_last_error_code Found
extract_last_error_code_last before body after code parsed closed no_more apart =
    reported_from body after code parsed closed no_more (length before) (negsuc 0) before
      (le_refl _)
      λ x e. ground (arith, apart, has_suffix-append x marker, ap (λ t. has_suffix t marker) e)
