-- ===== src/Bytes.antt =====
-- Go strings are byte sequences. The functions of Go's `strings`, `strconv` and `fmt` that the
-- program uses on them.
use Prim.Native.Char.{code}
use total.Prelude.{
  ℕ, zero, suc, ◌+◌, ◌-◌, ◌*◌, ◌/◌, ◌%◌, ◌^◌, String, Bool, true, false, ◌&&◌, ◌||◌, Option, none,
  some, List, [], ◌∷◌, ◌++◌, reverse, length, drop, ltb, leb, ◌==◌, if◌then◌else◌, ◌≡◌, ◌↔◌, refl,
  arith,
}
use total.Prelude.Int.{ℤ, pos, negsuc}

abbrev pub Bytes : Type 0
Bytes = List ℕ

-- The UTF-8 encoding of one code point.
unfoldable pub utf8 : ℕ → Bytes
utf8 c =
    if ltb c 0x80
    then c ∷ []
    else if ltb c 0x800
    then (0xC0 + c / 0x40) ∷ (0x80 + c % 0x40) ∷ []
    else if ltb c 0x10000
    then (0xE0 + c / 0x1000) ∷ (0x80 + (c / 0x40) % 0x40) ∷ (0x80 + c % 0x40) ∷ []
    else (0xF0 + c / 0x40000)
      ∷ (0x80 + (c / 0x1000) % 0x40)
      ∷ (0x80 + (c / 0x40) % 0x40)
      ∷ (0x80 + c % 0x40)
      ∷ []

-- A string literal of the source.
unfoldable pub text : String → Bytes
unfolding utf8
text String.[] = []
text (String.◌∷◌ c s) = utf8 (code c) ++ text s

unfoldable pub bytes_eq : Bytes → Bytes → Bool
bytes_eq [] [] = true
bytes_eq [] (y ∷ ys) = false
bytes_eq (x ∷ xs) [] = false
bytes_eq (x ∷ xs) (y ∷ ys) = x == y && bytes_eq xs ys

pub bytes_eq_iff : (s t : Bytes) → (bytes_eq s t ≡ true) ↔ (s ≡ t)
unfolding bytes_eq
bytes_eq_iff [] [] = ground arith
bytes_eq_iff [] (y ∷ ys) = ground arith
bytes_eq_iff (x ∷ xs) [] = ground arith
bytes_eq_iff (x ∷ xs) (y ∷ ys) = ground (arith, bytes_eq_iff xs ys)

pub bytes_eq_refl : (s : Bytes) → bytes_eq s s ≡ true
bytes_eq_refl s = (bytes_eq_iff s s).1 refl

-- `s == ""`
abbrev pub is_empty : Bytes → Bool
is_empty [] = true
is_empty (x ∷ xs) = false

-- `strings.HasPrefix(s, prefix)`
unfoldable pub has_prefix : Bytes → Bytes → Bool
has_prefix s [] = true
has_prefix [] (p ∷ ps) = false
has_prefix (c ∷ cs) (p ∷ ps) = c == p && has_prefix cs ps

-- `strings.HasSuffix(s, suffix)`
unfoldable pub has_suffix : Bytes → Bytes → Bool
unfolding has_prefix
has_suffix s suffix = has_prefix (reverse s) (reverse suffix)

-- `strings.Index(s, substr)`, `none` for -1.
unfoldable pub index : Bytes → Bytes → Option ℕ
unfolding has_prefix
index [] substr = if has_prefix [] substr then some 0 else none
index (c ∷ cs) substr =
    let later : Option ℕ = elim (index cs substr) [ none ↦ none | some i ↦ some (suc i) ] in
    if has_prefix (c ∷ cs) substr then some 0 else later

-- `strings.Contains(s, substr)`
unfoldable pub contains : Bytes → Bytes → Bool
unfolding index
contains s substr = elim (index s substr) [ none ↦ false | some i ↦ true ]

-- The decimal digits of a number, with fuel above their count.
unfoldable pub decimal_fuel : ℕ → ℕ → Bytes
decimal_fuel zero n = []
decimal_fuel (suc fuel) n =
    let more = decimal_fuel fuel (n / 10) ++ ((b'0' + n % 10) ∷ []) in
    if ltb n 10 then (b'0' + n) ∷ [] else more

-- `%d` of an integer.
unfoldable pub show_nat : ℕ → Bytes
unfolding decimal_fuel
show_nat n = decimal_fuel (suc n) n

unfoldable pub show_int : ℤ → Bytes
unfolding show_nat
show_int (pos n) = show_nat n
show_int (negsuc n) = b'-' ∷ show_nat (suc n)

-- The value of a nonempty run of decimal digits.
unfoldable pub digits_value : ℕ → Bytes → Option ℕ
digits_value acc [] = some acc
digits_value acc (c ∷ cs) =
    let rest = digits_value (acc * 10 + (c - b'0')) cs in
    if leb b'0' c && leb c b'9' then rest else none

unfoldable pub parse_digits : Bytes → Option ℕ
unfolding digits_value
parse_digits [] = none
parse_digits (c ∷ cs) = digits_value 0 (c ∷ cs)

-- The magnitude in the range of int64, with its sign.
unfoldable pub signed : Bool → Option ℕ → Option ℤ
signed neg none = none
signed false (some n) = if ltb n (2 ^ 63) then some (pos n) else none
signed true (some zero) = some (pos 0)
signed true (some (suc n)) = if ltb n (2 ^ 63) then some (negsuc n) else none

-- `strconv.ParseInt(s, 10, 64)`, and `strconv.Atoi` where int has 64 bits; `none` for an error.
unfoldable pub parse_int : Bytes → Option ℤ
unfolding parse_digits signed
parse_int [] = none
parse_int (c ∷ cs) =
    if c == b'-'
    then signed true (parse_digits cs)
    else if c == b'+'
    then signed false (parse_digits cs)
    else signed false (parse_digits (c ∷ cs))

-- The texts of the errors of `strconv.ParseInt` for a text that `parse_int` refuses. The digits are
-- read as a uint64, and the first that leads out of it ends the reading.
unfoldable digits_reason : ℕ → Bytes → Bytes
digits_reason acc [] = text "value out of range"
digits_reason acc (c ∷ cs) =
    let next = acc * 10 + (c - b'0') in
    let rest = digits_reason next cs in
    if leb b'0' c && leb c b'9'
    then (if ltb next (2 ^ 64) then rest else text "value out of range")
    else text "invalid syntax"

abbrev some_digits_reason : Bytes → Bytes
some_digits_reason [] = text "invalid syntax"
some_digits_reason (c ∷ cs) = digits_reason 0 (c ∷ cs)

unfoldable pub parse_reason : Bytes → Bytes
unfolding digits_reason
parse_reason [] = text "invalid syntax"
parse_reason (c ∷ cs) =
    if c == b'-' || c == b'+' then some_digits_reason cs else some_digits_reason (c ∷ cs)

abbrev within : ℕ → ℕ → ℕ → Bool
within lo hi c = leb lo c && leb c hi

-- The bytes of the white space character (unicode.IsSpace) that a text begins with, 0 if none.
unfoldable pub space_len : Bytes → ℕ
space_len [] = 0
space_len (a ∷ []) = if within 9 13 a || a == 32 then 1 else 0
space_len (a ∷ b ∷ []) =
    if within 9 13 a || a == 32 then 1 else if a == 0xC2 && (b == 0x85 || b == 0xA0) then 2 else 0
space_len (a ∷ b ∷ c ∷ s) =
    if within 9 13 a || a == 32
    then 1
    else if a == 0xC2 && (b == 0x85 || b == 0xA0)
    then 2
    else if a == 0xE1 && b == 0x9A && c == 0x80
    then 3
    else if a == 0xE2 && b == 0x80 && (within 0x80 0x8A c || within 0xA8 0xA9 c || c == 0xAF)
    then 3
    else if (a == 0xE2 && b == 0x81 && c == 0x9F) || (a == 0xE3 && b == 0x80 && c == 0x80)
    then 3
    else 0

-- The same for the last character of a text that is given in reverse.
unfoldable pub last_space_len : Bytes → ℕ
unfolding space_len
last_space_len [] = 0
last_space_len (a ∷ []) = space_len (a ∷ [])
last_space_len (b ∷ a ∷ []) =
    if space_len (b ∷ []) == 1 then 1 else if space_len (a ∷ b ∷ []) == 2 then 2 else 0
last_space_len (c ∷ b ∷ a ∷ s) =
    if space_len (c ∷ []) == 1
    then 1
    else if space_len (b ∷ c ∷ []) == 2
    then 2
    else if space_len (a ∷ b ∷ c ∷ []) == 3
    then 3
    else 0

unfoldable pub trim_fuel : (Bytes → ℕ) → ℕ → Bytes → Bytes
trim_fuel blank zero s = s
trim_fuel blank (suc fuel) s = elim (blank s) [
  | zero ↦ s
  | suc k ↦ trim_fuel blank fuel (drop (suc k) s)
]

-- `strings.TrimSpace(s)`; every round drops a byte, so the length is fuel enough.
unfoldable pub trim_space : Bytes → Bytes
unfolding trim_fuel space_len last_space_len
trim_space s =
    let t = trim_fuel space_len (length s) s in
    reverse (trim_fuel last_space_len (length t) (reverse t))

-- `strings.ToUpper(s)`. Of the letters beyond ASCII only those are mapped whose upper case is ASCII
-- (U+017F and U+0131): the program compares the result with ASCII words alone.
unfoldable pub to_upper : Bytes → Bytes
to_upper [] = []
to_upper (a ∷ []) = (if within b'a' b'z' a then a - 32 else a) ∷ []
to_upper (a ∷ b ∷ s) =
    let short = to_upper s in
    let one = (if within b'a' b'z' a then a - 32 else a) ∷ to_upper (b ∷ s) in
    if a == 0xC5 && b == 0xBF
    then b'S' ∷ short
    else if a == 0xC4 && b == 0xB1
    then b'I' ∷ short
    else one
