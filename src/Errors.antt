-- ===== src/Errors.antt =====
-- Go's errors as values: the sentinels that the packages under internal/ declare, texts, and the
-- wrapping of `fmt.Errorf("…%w…")`; a call's result; and the state monad of the calls.
pub mod Laws
use total.Prelude.{ℕ, String, Bool, [], true, false, Option, none, some, ◌++◌, ◌==◌}
use total.Bytes.{Bytes, text}

pub data Sentinel : Type 0 where
  -- internal/service
  amount_overflow market_not_found market_resolved service_invalid_outcome : Sentinel
  insufficient_cost factory_not_configured invalid_metadata_hash : Sentinel
  -- internal/model
  model_invalid_outcome invalid_public_key empty_question question_too_long : Sentinel
  description_too_long invalid_liquidity_param invalid_share_amount close_time_in_past : Sentinel
  invalid_slippage : Sentinel
  -- internal/lmsr
  lmsr_invalid_outcome negative_amount invalid_liquidity negative_quantities : Sentinel
  insufficient_tokens : Sentinel
  -- internal/stellar
  account_not_found insufficient_balance network_timeout invalid_transaction : Sentinel
  empty_horizon_url empty_passphrase : Sentinel
  -- internal/soroban
  rpc_error simulation_failed transaction_failed transaction_not_found timed_out : Sentinel
  unknown_status soroban_invalid_outcome : Sentinel
  -- internal/ipfs
  invalid_cid : Sentinel
  -- package context
  deadline_exceeded canceled : Sentinel

-- Sentinels are pointers: two are equal if they are the same declaration.
unfoldable pub number : Sentinel → ℕ
number amount_overflow = 0
number market_not_found = 1
number market_resolved = 2
number service_invalid_outcome = 3
number insufficient_cost = 4
number factory_not_configured = 5
number invalid_metadata_hash = 6
number model_invalid_outcome = 7
number invalid_public_key = 8
number empty_question = 9
number question_too_long = 10
number description_too_long = 11
number invalid_liquidity_param = 12
number invalid_share_amount = 13
number close_time_in_past = 14
number invalid_slippage = 15
number lmsr_invalid_outcome = 16
number negative_amount = 17
number invalid_liquidity = 18
number negative_quantities = 19
number insufficient_tokens = 20
number account_not_found = 21
number insufficient_balance = 22
number network_timeout = 23
number invalid_transaction = 24
number empty_horizon_url = 25
number empty_passphrase = 26
number rpc_error = 27
number simulation_failed = 28
number transaction_failed = 29
number transaction_not_found = 30
number timed_out = 31
number unknown_status = 32
number soroban_invalid_outcome = 33
number invalid_cid = 34
number deadline_exceeded = 35
number canceled = 36

unfoldable pub same : Sentinel → Sentinel → Bool
unfolding number
same s t = number s == number t

-- The text that `errors.New` got.
unfoldable pub sentinel_text : Sentinel → Bytes
sentinel_text amount_overflow = text "amount overflow: value exceeds int64 range"
sentinel_text market_not_found = text "market not found"
sentinel_text market_resolved = text "market already resolved"
sentinel_text service_invalid_outcome = text "invalid outcome"
sentinel_text insufficient_cost = text "insufficient cost provided"
sentinel_text factory_not_configured = text "factory contract not configured"
sentinel_text invalid_metadata_hash = text "invalid metadata hash"
sentinel_text model_invalid_outcome = text "invalid outcome: must be YES or NO"
sentinel_text invalid_public_key = text "invalid Stellar public key format"
sentinel_text empty_question = text "question is required"
sentinel_text question_too_long = text "question exceeds maximum length (500 characters)"
sentinel_text description_too_long = text "description exceeds maximum length (2000 characters)"
sentinel_text invalid_liquidity_param = text "liquidity parameter must be positive"
sentinel_text invalid_share_amount = text "share amount must be positive"
sentinel_text close_time_in_past = text "close time must be in the future"
sentinel_text invalid_slippage = text "slippage must be between 0 and 10%"
sentinel_text lmsr_invalid_outcome = text "invalid outcome: must be YES or NO"
sentinel_text negative_amount = text "amount must be positive"
sentinel_text invalid_liquidity = text "liquidity parameter must be positive"
sentinel_text negative_quantities = text "quantities must be non-negative"
sentinel_text insufficient_tokens = text "cannot sell more than available"
sentinel_text account_not_found = text "stellar account not found"
sentinel_text insufficient_balance = text "insufficient balance"
sentinel_text network_timeout = text "stellar network timeout"
sentinel_text invalid_transaction = text "invalid transaction"
sentinel_text empty_horizon_url = text "horizon URL is required"
sentinel_text empty_passphrase = text "network passphrase is required"
sentinel_text rpc_error = text "RPC error"
sentinel_text simulation_failed = text "simulation failed"
sentinel_text transaction_failed = text "transaction failed"
sentinel_text transaction_not_found = text "transaction not found"
sentinel_text timed_out = text "timeout waiting for transaction"
sentinel_text unknown_status = text "unknown transaction status"
sentinel_text soroban_invalid_outcome = text "invalid outcome: must be YES or NO"
sentinel_text invalid_cid = text "invalid IPFS CID format"
sentinel_text deadline_exceeded = text "context deadline exceeded"
sentinel_text canceled = text "context canceled"

pub data Error : Type 0 where
  sentinel : Sentinel → Error
  -- `errors.New` in place, `fmt.Errorf` with no `%w`, an error of a library.
  plain : Bytes → Error
  -- A `*gatewayError` of internal/ipfs: its status and its message.
  gateway : ℕ → Bytes → Error
  -- `fmt.Errorf("before%wafter", err)`
  wrap : Bytes → Error → Bytes → Error

-- `fmt.Errorf("before: %w", err)`
abbrev pub wrapped : String → Error → Error
wrapped before e = wrap (text before) e []

abbrev pub failure : String → Error
failure message = plain (text message)

-- `err.Error()`
unfoldable pub message : Error → Bytes
unfolding sentinel_text
message (sentinel s) = sentinel_text s
message (plain m) = m
message (gateway status m) = text "IPFS error: " ++ m
message (wrap before e after) = before ++ (message e ++ after)

-- `errors.Is(err, s)`: along the chain of wrapped errors.
unfoldable pub errors_is : Error → Sentinel → Bool
unfolding same
errors_is (sentinel t) s = same t s
errors_is (plain m) s = false
errors_is (gateway status m) s = false
errors_is (wrap before e after) s = errors_is e s

-- What a Go function `(T, error)` returns; `both` is a value beside an error.
pub data Result {ℓ} (A : Type ℓ) : Type ℓ where
  ok : A → Result A
  err : Error → Result A
  both : A → Error → Result A

-- The value with no error, if that is what was returned.
abbrev pub value? {ℓ} : {A : Type ℓ} → Result A → Option A
value? (ok a) = some a
value? (err e) = none
value? (both a e) = none

-- A call that reads and writes a state.
abbrev pub Action : Type 0 → Type 0 → Type 0
Action S A = S → Result A × S

abbrev pub continue : {S A B : Type 0} → Result A × S → (A → Action S B) → Result B × S
continue (ok a, s) f = f a s
continue (err e, s) f = (err e, s)
continue (both a e, s) f = (err e, s)

-- `x, err := m; if err != nil { return err }; f(x)`
infixl 5 ◌>>=◌ ◌>>◌
abbrev pub ◌>>=◌ : {S A B : Type 0} → Action S A → (A → Action S B) → Action S B
◌>>=◌ m f s = continue (m s) f

abbrev pub ◌>>◌ : {S B : Type 0} → Action S (Unit {0}) → Action S B → Action S B
m >> k = m >>= λ _. k

abbrev pub relabel : {S A : Type 0} → String → Result A × S → Result A × S
relabel before (ok a, s) = (ok a, s)
relabel before (err e, s) = (err (wrapped before e), s)
relabel before (both a e, s) = (err (wrapped before e), s)

-- `if err != nil { return fmt.Errorf("before: %w", err) }` after a call.
abbrev pub during : {S A : Type 0} → String → Action S A → Action S A
during before m s = relabel before (m s)

abbrev pub pure : {S A : Type 0} → A → Action S A
pure a s = (ok a, s)

abbrev pub fail : {S A : Type 0} → Error → Action S A
fail e s = (err e, s)

-- A call that needs no state.
abbrev pub lift : {S A : Type 0} → Result A → Action S A
lift r s = (r, s)

-- `if bad { return err }`
abbrev pub reject : {S : Type 0} → Bool → Error → Action S (Unit {0})
reject true e = fail e
reject false e = pure tt
