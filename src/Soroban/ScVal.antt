-- ===== src/Soroban/ScVal.antt =====
-- internal/soroban/contract.go: contract values, their encoders and their decoders. `xdr.ScVal` is
-- a tagged union of pointers: `absent` is a value with a tag whose own pointer is nil, and a tag
-- that the program does not read.
pub mod Laws
use total.Prelude.{
  ℕ, ◌+◌, ◌-◌, ◌^◌, ◌≤◌, Bool, true, false, ◌&&◌, Option, List, [], ◌∷◌, leb, ltb, ◌==◌,
  if◌then◌else◌,
}
use total.Prelude.Int.{ℤ, pos, negsuc, eqb_ℤ}
use total.Bytes.{Bytes}
use total.Errors.{Result, ok, err, failure}

pub data VersionByte : Type 0 where
  account_id contract : VersionByte

pub data ScValType : Type 0 where
  scv_bool scv_u32 scv_i128 scv_bytes scv_string scv_symbol scv_vec scv_address : ScValType
  scv_other : ℕ → ScValType

-- `xdr.ScAddress` with its key bytes; `missing` has a nil pointer.
pub data ScAddress : Type 0 where
  account_address : Bytes → ScAddress
  contract_address : Bytes → ScAddress
  missing_account missing_contract other_address : ScAddress

-- `xdr.Int128Parts`: an int64 and a uint64.
pub record Int128Parts : Type 0 where
  pub hi : ℤ
  pub lo : ℕ

mutual
  pub data ScVal : Type 0 where
    sc_bool : Bool → ScVal
    sc_u32 : ℕ → ScVal
    sc_i128 : Int128Parts → ScVal
    sc_bytes : Bytes → ScVal
    sc_string : Bytes → ScVal
    sc_symbol : Bytes → ScVal
    sc_address : ScAddress → ScVal
    sc_vec : ScVec → ScVal
    absent : ScValType → ScVal

  pub data ScVec : Type 0 where
    nil : ScVec
    cons : ScVal → ScVec → ScVec

-- The slice that a vector holds.
unfoldable pub elements : ScVec → List ScVal
elements nil = []
elements (cons v vs) = v ∷ elements vs

-- `uint64(value)` of an int64.
unfoldable pub to_uint64 : ℤ → ℕ
to_uint64 (pos n) = n
to_uint64 (negsuc n) = 2 ^ 64 - 1 - n

-- `int64(lo)` of a uint64.
unfoldable pub to_int64 : ℕ → ℤ
to_int64 lo = if ltb lo (2 ^ 63) then pos lo else negsuc (2 ^ 64 - 1 - lo)

-- `EncodeI128` of an int64.
unfoldable pub encode_i128 : ℤ → ScVal
unfolding to_uint64
encode_i128 (pos n) = sc_i128 (record { hi = pos 0; lo = to_uint64 (pos n) })
encode_i128 (negsuc n) = sc_i128 (record { hi = negsuc 0; lo = to_uint64 (negsuc n) })

unfoldable pub encode_u32 : ℕ → ScVal
encode_u32 value = sc_u32 value

unfoldable pub encode_symbol : Bytes → ScVal
encode_symbol s = sc_symbol s

unfoldable pub encode_string : Bytes → ScVal
encode_string s = sc_string s

unfoldable pub encode_bytes : Bytes → ScVal
encode_bytes b = sc_bytes b

unfoldable pub encode_bool : Bool → ScVal
encode_bool b = sc_bool b

unfoldable pub encode_bytes32 : Bytes → ScVal
encode_bytes32 b = sc_bytes b

abbrev pub max_int64 : ℕ
max_int64 = 2 ^ 63 - 1

-- The two tests of `DecodeI128` on the halves.
unfoldable pub narrow : ℤ → ℕ → Result ℤ
unfolding to_int64
narrow hi lo =
    if eqb_ℤ hi (pos 0) && leb lo max_int64
    then ok (to_int64 lo)
    else if eqb_ℤ hi (negsuc 0) && ltb max_int64 lo
    then ok (to_int64 lo)
    else err (failure "I128 value too large for int64")

unfoldable pub decode_i128 : ScVal → Result ℤ
unfolding narrow
decode_i128 (sc_i128 parts) = narrow parts.hi parts.lo
decode_i128 _ = err (failure "not an I128 value")

unfoldable pub decode_u32 : ScVal → Result ℕ
decode_u32 (sc_u32 value) = ok value
decode_u32 _ = err (failure "not a U32 value")

unfoldable pub decode_bool : ScVal → Result Bool
decode_bool (sc_bool b) = ok b
decode_bool _ = err (failure "not a Bool value")
