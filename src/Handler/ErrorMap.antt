-- ===== src/Handler/ErrorMap.antt =====
-- internal/handler/market.go: `mapError`. The switch tries its cases in order, so it is a table of
-- rows of which the first that matches answers; a row may read the error's text.
pub mod Laws
use total.Prelude.{ℕ, String, Bool, true, false, List, [], ◌∷◌, ◌++◌, if◌then◌else◌}
use total.Bytes.{Bytes, text, contains}
use total.Errors.{
  Error, Sentinel, message, errors_is, market_not_found, market_resolved, factory_not_configured,
  invalid_metadata_hash, service_invalid_outcome, empty_question, question_too_long,
  description_too_long, invalid_liquidity_param, invalid_share_amount, close_time_in_past,
  invalid_public_key, invalid_slippage, lmsr_invalid_outcome, negative_amount, insufficient_tokens,
  negative_quantities, invalid_liquidity, account_not_found, rpc_error, simulation_failed,
  transaction_failed, timed_out, deadline_exceeded, canceled,
}
use total.Handler.ErrorCode.{
  ErrorResponse, answer, marker, map_contract_error, bad_request, not_found, conflict,
  internal_server_error, bad_gateway, service_unavailable, gateway_timeout,
}

pub record Row : Type 0 where
  pub sentinel : Sentinel
  pub respond : Bytes → ErrorResponse

abbrev pub fixed : Sentinel → String → ℕ → Row
fixed s m status = record { sentinel = s; respond = λ _. answer m status }

-- What is answered by the contract's code, if the text has one, and otherwise by a fixed response.
unfoldable pub by_code : ErrorResponse → Bytes → ErrorResponse
by_code otherwise s = if contains s marker then map_contract_error s else otherwise

unfoldable pub rows : List Row
unfolding by_code
rows =
    fixed market_not_found "Market not found" not_found
    ∷ fixed market_resolved "Market has already been resolved" conflict
    ∷ fixed factory_not_configured "Factory contract not configured" service_unavailable
    ∷ fixed invalid_metadata_hash "Invalid metadata hash" bad_request
    ∷ fixed service_invalid_outcome "Invalid outcome: must be YES or NO" bad_request
    ∷ fixed empty_question "Question is required" bad_request
    ∷ fixed question_too_long "Question exceeds maximum length (500 characters)" bad_request
    ∷ fixed description_too_long "Description exceeds maximum length (2000 characters)" bad_request
    ∷ fixed invalid_liquidity_param "Liquidity parameter must be a positive number" bad_request
    ∷ fixed invalid_share_amount "Share amount must be a positive number" bad_request
    ∷ fixed close_time_in_past "Close time must be in the future" bad_request
    ∷ fixed invalid_public_key "Invalid Stellar public key format" bad_request
    ∷ fixed invalid_slippage "Slippage must be between 0 and 10%" bad_request
    ∷ fixed lmsr_invalid_outcome "Invalid outcome: must be YES or NO" bad_request
    ∷ fixed negative_amount "Amount must be positive" bad_request
    ∷ fixed insufficient_tokens "Insufficient tokens available" bad_request
    ∷ fixed negative_quantities "Invalid market state: negative quantities" bad_request
    ∷ fixed invalid_liquidity "Invalid liquidity parameter" bad_request
    ∷ fixed account_not_found
        "Stellar account not found. Please ensure the account exists and is funded." bad_request
    ∷ fixed rpc_error "Failed to communicate with the blockchain. Please try again later."
        bad_gateway
    ∷ record {
      sentinel = simulation_failed;
      respond =
          by_code
            (answer "Transaction simulation failed. Your parameters may be invalid." bad_request);
    }
    ∷ fixed transaction_failed "Transaction failed. Please check your parameters and try again."
        bad_request
    ∷ fixed timed_out "Request timed out. Please try again." gateway_timeout
    ∷ fixed deadline_exceeded "Request timed out. Please try again." gateway_timeout
    ∷ fixed canceled "Request was cancelled." bad_request
    ∷ []

-- The `default` case.
unfoldable pub default_response : Bytes → ErrorResponse
unfolding by_code
default_response =
    by_code (answer "An unexpected error occurred. Please try again later." internal_server_error)

unfoldable pub respond_by : List Row → Error → Bytes → ErrorResponse
respond_by [] e s = default_response s
respond_by (row ∷ more) e s =
    if errors_is e row.sentinel then row.respond s else respond_by more e s

unfoldable pub map_error : Error → ErrorResponse
unfolding respond_by
map_error e = respond_by rows e (message e)
