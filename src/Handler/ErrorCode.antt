-- ===== src/Handler/ErrorCode.antt =====
-- internal/handler/market.go: `extractLastErrorCode` and `mapContractError`.
pub mod Laws
pub mod Last
use total.Prelude.{
  String, ℕ, zero, suc, ◌+◌, Bool, Option, none, some, List, [], ◌∷◌, ◌++◌, length, take, drop,
  if◌then◌else◌,
}
use total.Prelude.Int.{ℤ, pos, negsuc, eqb_ℤ, ltb_ℤ}
use total.Bytes.{Bytes, text, index, parse_int, show_int}

pub record ErrorResponse : Type 0 where
  pub message : Bytes
  pub status : ℕ

-- The status codes of net/http.
abbrev pub bad_request : ℕ
bad_request = 400

abbrev pub not_found : ℕ
not_found = 404

abbrev pub conflict : ℕ
conflict = 409

abbrev pub internal_server_error : ℕ
internal_server_error = 500

abbrev pub bad_gateway : ℕ
bad_gateway = 502

abbrev pub service_unavailable : ℕ
service_unavailable = 503

abbrev pub gateway_timeout : ℕ
gateway_timeout = 504

unfoldable pub marker : Bytes
marker = text "Error(Contract, #"

unfoldable pub closing : Bytes
closing = text ")"

abbrev pub parsed_or : ℤ → Option ℤ → ℤ
parsed_or last none = last
parsed_or last (some code) = code

-- The loop on `errStr[i:]`, with the last code so far. A round that goes on drops a byte at least.
unfoldable pub scan : ℕ → Bytes → ℤ → ℤ
scan zero rest last = last
scan (suc fuel) rest last = elim (index rest marker) [
  | none ↦ last
  | some i ↦ elim (index (drop (i + length marker) rest) closing) [
    | none ↦ last
    | some end ↦
        scan fuel (drop 1 (drop (i + length marker) rest))
          (parsed_or last (parse_int (take end (drop (i + length marker) rest))))
  ]
]

unfoldable pub extract_last_error_code : Bytes → ℤ
unfolding scan
extract_last_error_code s = scan (length s) s (negsuc 0)

abbrev pub answer : String → ℕ → ErrorResponse
answer message status = record { message = text message; status = status }

unfoldable pub response_of_code : ℤ → ErrorResponse
response_of_code code =
    if eqb_ℤ code (pos 15)
    then answer "Insufficient pool balance." bad_request
    else if eqb_ℤ code (pos 14)
    then answer "Contract storage corrupted." internal_server_error
    else if eqb_ℤ code (pos 13)
    then answer "Nothing to claim. You either have no winning tokens or already claimed."
        bad_request
    else if eqb_ℤ code (pos 12)
    then answer "Arithmetic overflow." bad_request
    else if eqb_ℤ code (pos 11)
    then answer "Invalid liquidity parameter." bad_request
    else if eqb_ℤ code (pos 10)
    then answer
        "Transaction failed. Check that your account has enough EURMTL and the collateral token trustline."
        bad_request
    else if eqb_ℤ code (pos 9)
    then answer "Return amount too low." bad_request
    else if eqb_ℤ code (pos 8)
    then answer "Slippage exceeded. Price moved unfavorably." bad_request
    else if eqb_ℤ code (pos 7)
    then answer "Insufficient token balance." bad_request
    else if eqb_ℤ code (pos 6)
    then answer "Invalid amount." bad_request
    else if eqb_ℤ code (pos 5)
    then answer "Invalid outcome. Must be YES (0) or NO (1)." bad_request
    else if eqb_ℤ code (pos 4)
    then answer "Market has not been resolved yet." bad_request
    else if eqb_ℤ code (pos 3)
    then answer "Market has already been resolved." conflict
    else if eqb_ℤ code (pos 2)
    then answer "Contract is not initialized." bad_request
    else if eqb_ℤ code (pos 1)
    then answer "Contract is already initialized." conflict
    else if ltb_ℤ code (pos 0)
    then answer "Contract error occurred. Please try again." bad_request
    else record {
      message = text "Contract error #" ++ (show_int code ++ text " occurred.");
      status = bad_request;
    }

unfoldable pub map_contract_error : Bytes → ErrorResponse
unfolding response_of_code
map_contract_error s = response_of_code (extract_last_error_code s)
