-- ===== src/Soroban/Address.antt =====
-- internal/soroban/contract.go: addresses, and the values that a contract returns.
use total.Prelude.{
  not, Option, none, some, List, [], ◌∷◌, ◌++◌, length, get_or, take, replicate, ◌==◌,
  if◌then◌else◌,
}
use total.Bytes.{Bytes, text, show_nat}
use total.Errors.{Error, plain, wrapped, failure, Result, ok, err, both}
use total.Soroban.ScVal.{
  account_id, contract, ScVal, sc_address, sc_vec, sc_string, elements, ScAddress, account_address,
  contract_address, missing_account, missing_contract, other_address,
}
use total.Platform.{Platform}

-- `fmt.Errorf("before: %w", err)` around the error of a call that has no state.
abbrev pub relabel_result {ℓ} : {A : Type ℓ} → Prim.Native.String.String → Result A → Result A
relabel_result before (ok a) = ok a
relabel_result before (err e) = err (wrapped before e)
relabel_result before (both a e) = err (wrapped before e)

-- The value of a call that has no state, handed on.
abbrev pub then_ok {ℓ κ} : {A : Type ℓ} {B : Type κ} → Result A → (A → B) → Result B
then_ok (ok a) f = ok (f a)
then_ok (err e) f = err e
then_ok (both a e) f = err e

-- `copy(id[:], bytes)` into an array of 32 zero bytes.
unfoldable pub copy32 : Bytes → Bytes
copy32 bytes = take 32 (bytes ++ replicate 32 0)

module _ (P : Platform) where
  -- `%c` of a byte beyond ASCII prints the character with that code; the text of this one message
  -- is given by `quote`, as for `%q`.
  unfoldable pub validate_contract_id : Bytes → Option Error
  validate_contract_id id =
      if not (length id == 56)
      then some
          (plain (text "invalid contract ID: must be 56 characters, got " ++ show_nat (length id)))
      else if not (get_or id 0 0 == b'C')
      then some (
          plain
            (text "invalid contract ID: must start with 'C', got " ++ P.quote (get_or id 0 0 ∷ [])))
      else elim (P.strkey_decode contract id) [
        | ok bytes ↦ none
        | err e ↦ some (wrapped "invalid contract ID: " e)
        | both bytes e ↦ some (wrapped "invalid contract ID: " e)
      ]

  unfoldable pub encode_address : Bytes → Result ScVal
  encode_address address =
      if not (length address == 56)
      then err (failure "invalid address length")
      else if get_or address 0 0 == b'G'
      then then_ok (relabel_result "invalid account ID: " (P.strkey_decode account_id address))
          (λ id. sc_address (account_address (copy32 id)))
      else if get_or address 0 0 == b'C'
      then then_ok (relabel_result "invalid contract ID: " (P.strkey_decode contract address))
          (λ id. sc_address (contract_address (copy32 id)))
      else err (failure "unsupported address type")

  unfoldable pub decode_sc_address : ScAddress → Result Bytes
  decode_sc_address (account_address id) = P.strkey_encode account_id id
  decode_sc_address (contract_address id) = P.strkey_encode contract id
  decode_sc_address missing_account = err (failure "nil account ID")
  decode_sc_address missing_contract = err (failure "nil contract ID")
  decode_sc_address other_address = err (failure "unknown address type")

  unfoldable pub decode_address : ScVal → Result Bytes
  unfolding decode_sc_address
  decode_address (sc_address a) = decode_sc_address a
  decode_address _ = err (failure "not an Address value")

  unfoldable pub parse_return_value : Bytes → Result ScVal
  parse_return_value xdr = elim (relabel_result "failed to decode base64: " (P.base64_decode xdr)) [
    | ok bytes ↦ relabel_result "failed to unmarshal ScVal: " (P.unmarshal_val bytes)
    | err e ↦ err e
    | both bytes e ↦ err e
  ]

-- The number of the type stands in the text; the decoder's answer does not depend on it.
unfoldable pub decode_vec : ScVal → Result (List ScVal)
decode_vec (sc_vec vs) = ok (elements vs)
decode_vec _ = err (failure "not a Vec value")

unfoldable pub decode_string : ScVal → Result Bytes
decode_string (sc_string s) = ok s
decode_string _ = err (failure "not a String value")
