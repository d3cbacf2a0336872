-- ===== src/Ipfs/Cid/Pattern.antt =====
-- internal/ipfs/client.go: the regular expression `ipfsCIDPattern`, and the function that decides it.
-- Its classes hold ASCII alone, so bytes serve for Go's runes.
use total.Prelude.{
  ℕ, Bool, true, ◌||◌, none, [], ◌∷◌, ◌++◌, length, ◌==◌, ◌≡◌, ◌≤◌, ◌⊎◌, ◌↔◌, ◌∙◌, All, refl, ap,
  arith, inl, inr, Bool-cases,
}
use total.Bytes.{Bytes}
use total.Ipfs.Cid.{every, is_base58, is_base32, matches_v0, matches_v1, validate_cid}

-- A byte of a class; one pattern after another; one or the other; [class]{n}; [class]{n,}.
pub data Pattern : Type 0 where
  one : (ℕ → Bool) → Pattern
  followed : Pattern → Pattern → Pattern
  either : Pattern → Pattern → Pattern
  exactly at_least : ℕ → (ℕ → Bool) → Pattern

abbrev AllIn : (ℕ → Bool) → Bytes → Type 0
AllIn p = All λ c. p c ≡ true

-- The texts that a pattern describes, as a whole.
abbrev pub Describes : Pattern → Bytes → Type 0
Describes (one p) s = (c : ℕ) × (s ≡ c ∷ []) × (p c ≡ true)
Describes (followed a b) s =
    (x : Bytes) × (y : Bytes) × (s ≡ x ++ y) × Describes a x × Describes b y
Describes (either a b) s = Describes a s ⊎ Describes b s
Describes (exactly n p) s = (length s ≡ n) × AllIn p s
Describes (at_least n p) s = (n ≤ length s) × AllIn p s

abbrev pub this : ℕ → ℕ → Bool
this c b = b == c

-- Qm[1-9A-HJ-NP-Za-km-z]{44}
abbrev pub pattern_v0 : Pattern
pattern_v0 = followed (one (this b'Q')) (followed (one (this b'm')) (exactly 44 is_base58))

-- b[A-Za-z2-7]{58,}
abbrev pub pattern_v1 : Pattern
pattern_v1 = followed (one (this b'b')) (at_least 58 is_base32)

unfoldable pub ipfs_cid_pattern : Pattern
ipfs_cid_pattern = either pattern_v0 pattern_v1

every_iff : (p : ℕ → Bool) (s : Bytes) → (every p s ≡ true) ↔ AllIn p s
unfolding every
every_iff p [] = (λ _. tt, λ _. refl)
every_iff p (c ∷ cs) =
    let (there, back) = every_iff p cs in
    ((λ e. (ground (arith, e), there (ground (arith, e)))), (λ (h, hs). ground (arith, h, back hs)))

matches_v0-Describes : (s : Bytes) → matches_v0 s ≡ true → Describes pattern_v0 s
unfolding matches_v0
matches_v0-Describes [] e = absurd (ground (arith, e))
matches_v0-Describes (q ∷ []) e = absurd (ground (arith, e))
matches_v0-Describes (q ∷ m ∷ rest) e = (
  q ∷ [],
  m ∷ rest,
  refl,
  (q, refl, ground (arith, e)),
  (
    m ∷ [],
    rest,
    refl,
    (m, refl, ground (arith, e)),
    (ground (arith, e), (every_iff is_base58 rest).0 (ground (arith, e))),
  ),
)

Describes-matches_v0 : (s : Bytes) → Describes pattern_v0 s → matches_v0 s ≡ true
unfolding matches_v0
Describes-matches_v0 s
      (x, y, split, (q, at_q, is_q), (x', y', split', (m, at_m, is_m), (size, all))) =
    let whole : s ≡ q ∷ m ∷ y' =
      split ∙ ap (λ t. t ++ y) at_q ∙ ap (λ t. q ∷ t) (split' ∙ ap (λ t. t ++ y') at_m) in
    let based = (every_iff is_base58 y').1 all in rw whole (ground (arith, is_q, is_m, size, based))

matches_v1-Describes : (s : Bytes) → matches_v1 s ≡ true → Describes pattern_v1 s
unfolding matches_v1
matches_v1-Describes [] e = absurd (ground (arith, e))
matches_v1-Describes (b ∷ rest) e = (
  b ∷ [],
  rest,
  refl,
  (b, refl, ground (arith, e)),
  (ground (arith, e), (every_iff is_base32 rest).0 (ground (arith, e))),
)

Describes-matches_v1 : (s : Bytes) → Describes pattern_v1 s → matches_v1 s ≡ true
unfolding matches_v1
Describes-matches_v1 s (x, y, split, (b, at_b, is_b), (size, all)) =
    let whole : s ≡ b ∷ y = split ∙ ap (λ t. t ++ y) at_b in
    let based = (every_iff is_base32 y).1 all in rw whole (ground (arith, is_b, size, based))

ipfs_cid_pattern_iff :
    (s : Bytes) → ((matches_v0 s || matches_v1 s) ≡ true) ↔ Describes ipfs_cid_pattern s
unfolding ipfs_cid_pattern
ipfs_cid_pattern_iff s = (
  λ e. elim (Bool-cases (matches_v0 s)) [
    | inl v0 ↦ inl (matches_v0-Describes s v0)
    | inr other ↦ inr (matches_v1-Describes s (ground (arith, e, other)))
  ],
  λ h. elim h [
    | inl v0 ↦ ground (arith, Describes-matches_v0 s v0)
    | inr v1 ↦ ground (arith, Describes-matches_v1 s v1)
  ],
)

-- `validate_cid` accepts exactly the texts of 10 to 100 bytes that the regular expression describes
-- as a whole.
pub validate_cid-Describes :
    (cid : Bytes)
    → (validate_cid cid ≡ none)
      ↔ (Describes ipfs_cid_pattern cid × (10 ≤ length cid) × (length cid ≤ 100))
unfolding validate_cid
validate_cid-Describes cid =
    let (there, back) = ipfs_cid_pattern_iff cid in
    (
      (λ e. (there (ground (arith, e)), ground (arith, e), ground (arith, e))),
      (λ (h, low, high). ground (arith, back h, low, high)),
    )
