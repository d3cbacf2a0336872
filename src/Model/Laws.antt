-- ===== src/Model/Laws.antt =====
-- What the validations of the model accept.
use total.Prelude.{◌≤◌, true, false, none, [], length, ◌≡◌, ◌≢◌, ◌↔◌, ◌⊎◌, arith}
use total.Bytes.{Bytes, text, bytes_eq_iff, trim_space, to_upper, has_prefix}
use total.Errors.{ok}
use total.Model.{
  parse_outcome, is_valid, validate_stellar_public_key, MarketMetadata, validate_metadata, Market,
  validate_market, is_resolved, zero_float, one_float,
}
use total.Platform.{Floats}

-- `parse_outcome` returns an outcome exactly for the texts that read YES or NO once trimmed and in
-- upper case; it is that word, and so a valid outcome.
parse_outcome_exact :
    (s o : Bytes) → (parse_outcome s ≡ ok o) ↔ ((o ≡ to_upper (trim_space s)) × (is_valid o ≡ true))
unfolding parse_outcome is_valid
parse_outcome_exact s o = (
  λ e. ground (
    arith,
    bytes_eq_iff (to_upper (trim_space s)) (text "YES"),
    bytes_eq_iff (to_upper (trim_space s)) (text "NO"),
  ),
  λ p. ground (
    arith,
    bytes_eq_iff (to_upper (trim_space s)) (text "YES"),
    bytes_eq_iff (to_upper (trim_space s)) (text "NO"),
  ),
)

-- A public key is accepted exactly if, trimmed, it has 56 bytes and begins with G.
validate_stellar_public_key_exact :
    (key : Bytes)
    → (validate_stellar_public_key key ≡ none)
      ↔ ((length (trim_space key) ≡ 56) × (has_prefix (trim_space key) (text "G") ≡ true))
unfolding validate_stellar_public_key
validate_stellar_public_key_exact key = (λ e. ground arith, λ p. ground arith)

-- Metadata is accepted exactly if its question is not empty and no longer than 500 bytes, and its
-- description is no longer than 2000 bytes.
validate_metadata_exact :
    (m : MarketMetadata)
    → (validate_metadata m ≡ none)
      ↔ ((m.question ≢ []) × (length m.question ≤ 500) × (length m.description ≤ 2000))
unfolding validate_metadata
validate_metadata_exact m = (λ e. ground arith, λ p. ground arith)

module _ (F : Floats) where
  -- The invariants of a market, in words of its fields.
  pub record IsSound (m : Market F) : Type 0 where
    pub has_id : m.id ≢ []
    pub liquidity : F.le m.liquidity_param (zero_float F) ≡ false
    pub yes_sold : F.lt m.yes_sold (zero_float F) ≡ false
    pub no_sold : F.lt m.no_sold (zero_float F) ≡ false
    pub price_yes_low : F.lt m.price_yes (zero_float F) ≡ false
    pub price_yes_high : F.lt (one_float F) m.price_yes ≡ false
    pub price_no_low : F.lt m.price_no (zero_float F) ≡ false
    pub price_no_high : F.lt (one_float F) m.price_no ≡ false
    pub resolution : (m.resolution ≡ []) ⊎ (is_valid m.resolution ≡ true)
    pub resolved_when : (is_resolved F m ≡ true) ↔ (m.resolved_at ≢ none)

  -- `validate_market` accepts exactly the markets that keep the invariants: an id, a liquidity
  -- parameter that is not at most 0, quantities that are not below 0, prices that are not outside
  -- [0, 1], no resolution or a valid one, and a resolution time exactly where there is a resolution.
  pub validate_market_exact : (m : Market F) → (validate_market F m ≡ none) ↔ IsSound m
  unfolding validate_market is_resolved
  validate_market_exact m = (λ e. ground arith, λ p. ground arith)
