-- ===== src/Model.antt =====
-- internal/model: outcomes, markets and their metadata, with what makes them valid.
pub mod Laws
use total.Prelude.{
  ℕ, Bool, true, false, not, ◌&&◌, ◌||◌, Option, none, some, [], ltb, length, ◌==◌, if◌then◌else◌,
}
use total.Prelude.Int.{pos}
use total.Bytes.{Bytes, text, bytes_eq, is_empty, has_prefix, trim_space, to_upper}
use total.Errors.{
  Error, sentinel, failure, Result, ok, err, model_invalid_outcome, invalid_public_key,
  invalid_liquidity_param, empty_question, question_too_long, description_too_long,
}
use total.Platform.{Floats}

abbrev pub max_question_length : ℕ
max_question_length = 500

abbrev pub max_description_length : ℕ
max_description_length = 2000

-- `Outcome` is a string type, with "" for no outcome.
abbrev pub Outcome : Type 0
Outcome = Bytes

unfoldable pub parse_outcome : Bytes → Result Outcome
parse_outcome s =
    let word = to_upper (trim_space s) in
    if bytes_eq word (text "YES")
    then ok (text "YES")
    else if bytes_eq word (text "NO")
    then ok (text "NO")
    else err (sentinel model_invalid_outcome)

unfoldable pub is_valid : Outcome → Bool
is_valid o = bytes_eq o (text "YES") || bytes_eq o (text "NO")

unfoldable pub validate_stellar_public_key : Bytes → Option Error
validate_stellar_public_key key =
    let trimmed = trim_space key in
    if not (length trimmed == 56)
    then some (sentinel invalid_public_key)
    else if not (has_prefix trimmed (text "G"))
    then some (sentinel invalid_public_key)
    else none

-- A `time.Time` is a number of seconds.
pub record MarketMetadata : Type 0 where
  pub question : Bytes
  pub description : Bytes
  pub resolution_source : Bytes
  pub category : Bytes
  pub end_date : ℕ
  pub created_at : ℕ
  pub created_by : Bytes

unfoldable pub validate_metadata : MarketMetadata → Option Error
validate_metadata m =
    if is_empty m.question
    then some (sentinel empty_question)
    else if ltb max_question_length (length m.question)
    then some (sentinel question_too_long)
    else if ltb max_description_length (length m.description)
    then some (sentinel description_too_long)
    else none

-- `now` is `time.Now().UTC()`.
unfoldable pub new_market_metadata : ℕ → Bytes → Result MarketMetadata
unfolding validate_metadata
new_market_metadata now question =
    let m : MarketMetadata = record {
      question = question;
      description = [];
      resolution_source = [];
      category = [];
      end_date = 0;
      created_at = now;
      created_by = [];
    } in
    elim (validate_metadata m) [ none ↦ ok m | some e ↦ err e ]

pub record TransactionResult : Type 0 where
  pub xdr : Bytes
  pub description : Bytes
  pub sign_with : Bytes
  pub submit_url : Bytes

module _ (F : Floats) where
  abbrev pub zero_float : F.Float
  zero_float = F.of_int (pos 0)

  abbrev pub one_float : F.Float
  one_float = F.of_int (pos 1)

  pub record Market : Type 0 where
    pub id : Bytes
    pub question : Bytes
    pub description : Bytes
    pub resolution_source : Bytes
    pub category : Bytes
    pub end_date : ℕ
    pub collateral_asset : Bytes
    pub liquidity_param : F.Float
    pub yes_sold : F.Float
    pub no_sold : F.Float
    pub price_yes : F.Float
    pub price_no : F.Float
    pub resolved_at : Option ℕ
    pub resolution : Outcome
    pub created_at : ℕ
    pub metadata_hash : Bytes

  unfoldable pub new_market : Bytes → F.Float → Result Market
  new_market id liquidity =
      if is_empty id
      then err (failure "market ID is required")
      else if F.le liquidity zero_float
      then err (sentinel invalid_liquidity_param)
      else ok (record {
        id = id;
        question = [];
        description = [];
        resolution_source = [];
        category = [];
        end_date = 0;
        collateral_asset = [];
        liquidity_param = liquidity;
        yes_sold = zero_float;
        no_sold = zero_float;
        price_yes = F.constant 5 1;
        price_no = F.constant 5 1;
        resolved_at = none;
        resolution = [];
        created_at = 0;
        metadata_hash = [];
      })

  unfoldable pub is_resolved : Market → Bool
  is_resolved m = not (is_empty m.resolution)

  abbrev pub is_set : Option ℕ → Bool
  is_set none = false
  is_set (some t) = true

  -- The checks on the resolution.
  unfoldable pub validate_resolution : Market → Option Error
  validate_resolution m =
      if not (is_empty m.resolution) && not (is_valid m.resolution)
      then some (sentinel model_invalid_outcome)
      else if not (is_empty m.resolution) && not (is_set m.resolved_at)
      then some (failure "resolved market must have resolved_at timestamp")
      else if is_empty m.resolution && is_set m.resolved_at
      then some (failure "unresolved market must not have resolved_at timestamp")
      else none

  unfoldable pub validate_market : Market → Option Error
  unfolding validate_resolution
  validate_market m =
      if is_empty m.id
      then some (failure "market ID is required")
      else if F.le m.liquidity_param zero_float
      then some (sentinel invalid_liquidity_param)
      else if F.lt m.yes_sold zero_float
      then some (failure "yes_sold must be non-negative")
      else if F.lt m.no_sold zero_float
      then some (failure "no_sold must be non-negative")
      else if F.lt m.price_yes zero_float || F.lt one_float m.price_yes
      then some (failure "price_yes must be in range [0, 1]")
      else if F.lt m.price_no zero_float || F.lt one_float m.price_no
      then some (failure "price_no must be in range [0, 1]")
      else validate_resolution m

  pub record PriceQuote : Type 0 where
    pub market_id : Bytes
    pub outcome : Outcome
    pub share_amount : F.Float
    pub cost : F.Float
    pub price_per_share : F.Float
    pub new_probability : F.Float

  pub record PricePoint : Type 0 where
    pub timestamp : ℕ
    pub price_yes : F.Float
