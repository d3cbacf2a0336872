-- ===== src/Ipfs/Cid.antt =====
-- internal/ipfs/client.go: `ValidateCID`, with the pattern
-- ^(Qm[1-9A-HJ-NP-Za-km-z]{44}|b[A-Za-z2-7]{58,})$ as a function.
pub mod Pattern
use total.Prelude.{
  ℕ, Bool, true, false, not, ◌&&◌, ◌||◌, Option, none, some, [], ◌∷◌, length, ltb, leb, ◌==◌,
  if◌then◌else◌, ◌≡◌, ◌≤◌, arith, All, ◌⊎◌, inl, inr, Bool-cases,
}
use total.Bytes.{Bytes}
use total.Errors.{Error, sentinel, invalid_cid}

abbrev within : ℕ → ℕ → ℕ → Bool
within lo hi c = leb lo c && leb c hi

unfoldable pub is_base58 : ℕ → Bool
is_base58 c =
    within b'1' b'9' c
    || within b'A' b'H' c
    || within b'J' b'N' c
    || within b'P' b'Z' c
    || within b'a' b'k' c
    || within b'm' b'z' c

unfoldable pub is_base32 : ℕ → Bool
is_base32 c = within b'A' b'Z' c || within b'a' b'z' c || within b'2' b'7' c

unfoldable pub every : (ℕ → Bool) → Bytes → Bool
every p [] = true
every p (c ∷ cs) = p c && every p cs

-- Qm and 44 bytes of base 58.
unfoldable pub matches_v0 : Bytes → Bool
unfolding every is_base58
matches_v0 (q ∷ m ∷ rest) = q == b'Q' && m == b'm' && length rest == 44 && every is_base58 rest
matches_v0 _ = false

-- b and at least 58 bytes of base 32.
unfoldable pub matches_v1 : Bytes → Bool
unfolding every is_base32
matches_v1 (b ∷ rest) = b == b'b' && leb 58 (length rest) && every is_base32 rest
matches_v1 [] = false

unfoldable pub validate_cid : Bytes → Option Error
unfolding matches_v0 matches_v1
validate_cid cid =
    if ltb (length cid) 10 || ltb 100 (length cid)
    then some (sentinel invalid_cid)
    else if not (matches_v0 cid || matches_v1 cid)
    then some (sentinel invalid_cid)
    else none

-- A letter or a digit of ASCII: nothing that means anything in a URL.
abbrev pub IsAlphanumeric : ℕ → Type 0
IsAlphanumeric c = (within b'0' b'9' c || within b'A' b'Z' c || within b'a' b'z' c) ≡ true

every-All :
    (p : ℕ → Bool) (Q : ℕ → Type 0) (s : Bytes)
    → ((c : ℕ) → p c ≡ true → Q c)
    → every p s ≡ true
    → All Q s
unfolding every
every-All p Q [] h e = tt
every-All p Q (c ∷ cs) h e = (h c (ground arith), every-All p Q cs h (ground arith))

is_base58-IsAlphanumeric : (c : ℕ) → is_base58 c ≡ true → IsAlphanumeric c
unfolding is_base58
is_base58-IsAlphanumeric c e = ground arith

is_base32-IsAlphanumeric : (c : ℕ) → is_base32 c ≡ true → IsAlphanumeric c
unfolding is_base32
is_base32-IsAlphanumeric c e = ground arith

matches_v0-All : (cid : Bytes) → matches_v0 cid ≡ true → All IsAlphanumeric cid
unfolding matches_v0
matches_v0-All [] e = cc
matches_v0-All (q ∷ []) e = cc
matches_v0-All (q ∷ m ∷ rest) e =
    let tail = every-All is_base58 IsAlphanumeric rest is_base58-IsAlphanumeric (ground arith) in
    (ground arith, (ground arith, tail))

matches_v1-All : (cid : Bytes) → matches_v1 cid ≡ true → All IsAlphanumeric cid
unfolding matches_v1
matches_v1-All [] e = cc
matches_v1-All (b ∷ rest) e =
    (ground arith, every-All is_base32 IsAlphanumeric rest is_base32-IsAlphanumeric (ground arith))

matches_v0-length : (cid : Bytes) → matches_v0 cid ≡ true → length cid ≡ 46
unfolding matches_v0
matches_v0-length [] e = cc
matches_v0-length (q ∷ []) e = cc
matches_v0-length (q ∷ m ∷ rest) e = ground arith

matches_v1-length : (cid : Bytes) → matches_v1 cid ≡ true → 59 ≤ length cid
unfolding matches_v1
matches_v1-length [] e = cc
matches_v1-length (b ∷ rest) e = ground arith

-- An identifier that `validate_cid` accepts has 46 bytes or 59 to 100, all of them ASCII letters
-- and digits.
pub validate_cid_safe :
    (cid : Bytes)
    → validate_cid cid ≡ none
    → All IsAlphanumeric cid × ((length cid ≡ 46) ⊎ ((59 ≤ length cid) × (length cid ≤ 100)))
unfolding validate_cid
validate_cid_safe cid e = elim (Bool-cases (matches_v0 cid)) [
  | inl v0 ↦ (matches_v0-All cid v0, inl (matches_v0-length cid v0))
  | inr not_v0 ↦
      let v1 : matches_v1 cid ≡ true = ground arith in
      (matches_v1-All cid v1, inr (matches_v1-length cid v1, ground arith))
]
