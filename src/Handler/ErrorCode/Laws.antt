-- ===== src/Handler/ErrorCode/Laws.antt =====
-- The statuses of contract errors, and what `extract_last_error_code` finds.
use total.Prelude.{
  ℕ, zero, suc, ◌+◌, ◌≤◌, true, none, some, [], ◌∷◌, ◌++◌, length, take, drop, length-drop,
  drop-append, take-append, take-append-drop, drop_add-append, ◌≡◌, refl, sym, ◌∙◌, ap, ◌↔◌, ◌⊎◌,
  inl, inr, arith, Option-cases, Bool-cases,
}
use mathlib.Core.Path.{subst}
use mathlib.Core.List.{append_assoc}
use native.Mathlib.Nat.{le_refl}
use total.Prelude.Int.{ℤ, pos, negsuc}
use total.Bytes.{Bytes, text, index, has_prefix, parse_int}
use total.Handler.ErrorCode.{
  marker, closing, parsed_or, scan, extract_last_error_code, response_of_code,
}

-- A contract error is answered with 409 exactly for the codes 1 and 3, with 500 exactly for the code
-- 14, and with 400 for every other code, the -1 for no code included.
pub response_of_code_status :
    (code : ℤ)
    → (((response_of_code code).status ≡ 409) ↔ ((code ≡ pos 1) ⊎ (code ≡ pos 3)))
      × (((response_of_code code).status ≡ 500) ↔ (code ≡ pos 14))
      × (((response_of_code code).status ≡ 400)
          ⊎ ((response_of_code code).status ≡ 409)
          ⊎ ((response_of_code code).status ≡ 500))
unfolding response_of_code
response_of_code_status (pos n) =
    ((λ e. ground arith, λ e. ground arith), (λ e. ground arith, λ e. ground arith), ground arith)
response_of_code_status (negsuc n) =
    ((λ e. ground arith, λ e. ground arith), (λ e. ground arith, λ e. ground arith), ground arith)

-- `p` stands in `s` behind `i` bytes.
abbrev pub Stands : Bytes → Bytes → ℕ → Type 0
Stands s p i =
    (before : Bytes) × (after : Bytes) × (s ≡ before ++ (p ++ after)) × (length before ≡ i)

has_prefix_sound : (s p : Bytes) → has_prefix s p ≡ true → (after : Bytes) × (s ≡ p ++ after)
unfolding has_prefix
has_prefix_sound s [] e = (s, refl)
has_prefix_sound [] (p ∷ ps) e = cc
has_prefix_sound (c ∷ cs) (p ∷ ps) e =
    let (after, rest) = has_prefix_sound cs ps (ground arith) in (after, ground arith)

-- What `index` finds is there.
pub index-Stands : (s p : Bytes) (i : ℕ) → index s p ≡ some i → Stands s p i
unfolding index
index-Stands [] p i e = elim (Bool-cases (has_prefix [] p)) [
  | inl here ↦ let (after, split) = has_prefix_sound [] p here in ([], after, split, ground arith)
  | inr not_here ↦ ground arith
]
index-Stands (c ∷ cs) p i e = elim (Bool-cases (has_prefix (c ∷ cs) p)) [
  | inl here ↦
      let (after, split) = has_prefix_sound (c ∷ cs) p here in ([], after, split, ground arith)
  | inr not_here ↦ elim (Option-cases (index cs p)) [
    | inl nowhere ↦ ground arith
    | inr (j, later) ↦
        let (before, after, split, count) = index-Stands cs p j later in
        (c ∷ before, after, ap (λ t. c ∷ t) split, ground arith)
  ]
]

-- A code stands in a text as `Error(Contract, #code)`.
abbrev pub Occurs : ℤ → Bytes → Type 0
Occurs code s =
    (before : Bytes) × (body : Bytes) × (after : Bytes) × (s
      ≡ before ++ (marker ++ (body ++ (closing ++ after))))
    × (parse_int body ≡ some code)

Occurs-append : (code : ℤ) (front s : Bytes) → Occurs code s → Occurs code (front ++ s)
Occurs-append code front s (before, body, after, split, parsed) = (
  front ++ before,
  body,
  after,
  ap (λ t. front ++ t) split
      ∙ sym (append_assoc front before (marker ++ (body ++ (closing ++ after)))),
  parsed,
)

Occurs-drop : (code : ℤ) (n : ℕ) (s : Bytes) → Occurs code (drop n s) → Occurs code s
Occurs-drop code n s h =
    subst (Occurs code) (take-append-drop n s) (Occurs-append code (take n s) (drop n s) h)

pub drop-Stands : (s p : Bytes) (i : ℕ) (m : Stands s p i) → drop (i + length p) s ≡ m.1
drop-Stands s p i (before, after, split, count) =
    rw (split, ← count) (drop_add-append before (p ++ after) (length p) ∙ drop-append p after)

take-Stands : (s p : Bytes) (i : ℕ) (m : Stands s p i) → take i s ≡ m.0
take-Stands s p i (before, after, split, count) =
    rw (split, ← count) (take-append before (p ++ after))

-- The text behind a marker, and the digits up to the closing bracket.
abbrev pub behind : Bytes → ℕ → Bytes
behind s i = drop (i + length marker) s

Occurs-here :
    (s : Bytes) (i j : ℕ) (code : ℤ)
    → Stands s marker i
    → Stands (behind s i) closing j
    → parse_int (take j (behind s i)) ≡ some code
    → Occurs code s
Occurs-here s i j code m c parsed =
    let body = take-Stands (behind s i) closing j c in
    (
      m.0,
      c.0,
      c.1,
      m.2 ∙ ap (λ t. m.0 ++ (marker ++ t)) (sym (drop-Stands s marker i m) ∙ c.2),
      rw (← body) parsed,
    )

scan_step :
    (fuel : ℕ) (s : Bytes) (last : ℤ) (i j : ℕ)
    → index s marker ≡ some i
    → index (behind s i) closing ≡ some j
    → scan (suc fuel) s last
      ≡ scan fuel (drop 1 (behind s i)) (parsed_or last (parse_int (take j (behind s i))))
unfolding scan
scan_step fuel s last i j m c = rw (m, scan) (rw (c, scan) refl)

scan_round :
    (s : Bytes) (last : ℤ) (i j : ℕ) {r : ℤ}
    → Stands s marker i
    → Stands (behind s i) closing j
    → (r ≡ parsed_or last (parse_int (take j (behind s i)))) ⊎ Occurs r (drop 1 (behind s i))
    → (r ≡ last) ⊎ Occurs r s
scan_round s last i j {r} m c (inr later) =
    inr (Occurs-drop r (i + length marker) s (Occurs-drop r 1 (behind s i) later))
scan_round s last i j {r} m c (inl here) = elim (Option-cases (parse_int (take j (behind s i)))) [
  | inl bad ↦ inl (rw bad at here)
  | inr (code, good) ↦
      let e : r ≡ code = rw good at here in
      inr (subst (λ k. Occurs k s) (sym e) (Occurs-here s i j code m c good))
]

-- Whatever the fuel, the scan returns the code it started with, or one that stands in the text.
scan_sound :
    (fuel : ℕ) (s : Bytes) (last : ℤ) → (scan fuel s last ≡ last) ⊎ Occurs (scan fuel s last) s
unfolding scan
scan_sound zero s last = inl refl
scan_sound (suc fuel) s last = elim (Option-cases (index s marker)) [
  | inl nowhere ↦ inl (rw (nowhere, scan))
  | inr (i, m) ↦ elim (Option-cases (index (behind s i) closing)) [
    | inl open_ended ↦ inl (rw (m, scan) (rw (open_ended, scan)))
    | inr (j, c) ↦
        subst (λ r. (r ≡ last) ⊎ Occurs r s) (sym (scan_step fuel s last i j m c))
          (scan_round s last i j (index-Stands s marker i m) (index-Stands (behind s i) closing j c)
            (scan_sound fuel (drop 1 (behind s i)) _))
  ]
]

-- The code that is reported is -1, or one that stands in the text as `Error(Contract, #code)`.
pub extract_last_error_code_sound :
    (s : Bytes) → (extract_last_error_code s ≡ negsuc 0) ⊎ Occurs (extract_last_error_code s) s
unfolding extract_last_error_code
extract_last_error_code_sound s = scan_sound (length s) s (negsuc 0)

pub scan_nowhere :
    (fuel : ℕ) (s : Bytes) (last : ℤ) → index s marker ≡ none → scan fuel s last ≡ last
unfolding scan
scan_nowhere zero s last e = refl
scan_nowhere (suc fuel) s last e = rw (e, scan)

scan_open :
    (fuel : ℕ) (s : Bytes) (last : ℤ) (i : ℕ)
    → index s marker ≡ some i
    → index (behind s i) closing ≡ none
    → scan fuel s last ≡ last
unfolding scan
scan_open zero s last i m c = refl
scan_open (suc fuel) s last i m c = rw (m, scan) (rw (c, scan))

index_nil : index [] marker ≡ none
unfolding index marker text
index_nil = refl

-- With as much fuel as there are bytes the scan is not cut short: more makes no difference.
scan_fuel :
    (fuel more : ℕ) (s : Bytes) (last : ℤ)
    → length s ≤ fuel
    → fuel ≤ more
    → scan more s last ≡ scan fuel s last
scan_fuel zero more (c ∷ s) last h k = elim h [ ]
scan_fuel zero more [] last h k =
    scan_nowhere more [] last index_nil ∙ sym (scan_nowhere zero [] last index_nil)
scan_fuel (suc fuel) zero s last h k = elim k [ ]
scan_fuel (suc fuel) (suc more) s last h k = elim (Option-cases (index s marker)) [
  | inl e ↦ scan_nowhere (suc more) s last e ∙ sym (scan_nowhere (suc fuel) s last e)
  | inr (i, m) ↦ elim (Option-cases (index (behind s i) closing)) [
    | inl e ↦ scan_open (suc more) s last i m e ∙ sym (scan_open (suc fuel) s last i m e)
    | inr (j, c) ↦
        let short : length (drop 1 (behind s i)) ≤ fuel =
          omega (arith, length-drop 1 (behind s i), length-drop (i + length marker) s) in
        scan_step more s last i j m c
        ∙ scan_fuel fuel more (drop 1 (behind s i)) _ short (omega arith)
        ∙ sym (scan_step fuel s last i j m c)
  ]
]

-- The search of `extract_last_error_code`, begun with a code at hand.
abbrev pub extract_from : ℤ → Bytes → ℤ
extract_from last s = scan (length s) s last

pub extract_from_step :
    (last : ℤ) (s : Bytes) (i j : ℕ)
    → index s marker ≡ some i
    → index (behind s i) closing ≡ some j
    → extract_from last s
      ≡ extract_from (parsed_or last (parse_int (take j (behind s i)))) (drop 1 (behind s i))
extract_from_step last [] i j m c = absurd (some_ne_none (sym m ∙ index_nil))
  where
    some_ne_none : some i ≡ none → ⊥
    some_ne_none e = cc
extract_from_step last (x ∷ s) i j m c =
    let short : length (drop 1 (behind (x ∷ s) i)) ≤ length s =
      omega (arith, length-drop 1 (behind (x ∷ s) i), length-drop (i + length marker) (x ∷ s)) in
    scan_step (length s) (x ∷ s) last i j m c
    ∙ scan_fuel (length (drop 1 (behind (x ∷ s) i))) (length s) _ _ (le_refl _) short
