-- ===== src/Soroban/Invoker/Fee.antt =====
-- `SimulateAndPrepare`: the fee with the resource fee, in int64 arithmetic, kept in a uint32.
use total.Prelude.{ℕ, ◌+◌, ◌-◌, ◌%◌, ◌^◌, ◌<◌, ◌||◌, ◌++◌, if◌then◌else◌, ◌≡◌, ◌↔◌, arith}
use total.Prelude.Int.{ℤ, pos, negsuc, ◌+ℤ◌, pos_part, neg_part, ltb_ℤ, IsInt64}
use total.Bytes.{text, show_int}
use total.Errors.{Result, ok, err, plain}
use total.Soroban.ScVal.{to_int64}

-- An integer brought into the range of int64 by wrapping.
unfoldable pub wrap_int64 : ℤ → ℤ
unfolding to_int64
wrap_int64 (pos n) = to_int64 (n % 2 ^ 64)
wrap_int64 (negsuc n) = to_int64 (2 ^ 64 - 1 - n % 2 ^ 64)

abbrev pub max_uint32 : ℕ
max_uint32 = 2 ^ 32 - 1

unfoldable pub update_fee : ℕ → ℤ → Result ℕ
unfolding wrap_int64
update_fee fee resource =
    let new_fee = wrap_int64 (pos fee +ℤ resource) in
    if ltb_ℤ new_fee (pos 0) || ltb_ℤ (pos max_uint32) new_fee
    then err (plain (text "calculated fee " ++ (show_int new_fee ++ text " overflows uint32")))
    else ok (pos_part new_fee)

-- For a uint32 fee and an int64 resource fee the new fee is accepted exactly when the true sum lies
-- in the range of uint32, and it is that sum.
pub update_fee_exact :
    (fee : ℕ) (resource : ℤ) (new : ℕ)
    → fee < 2 ^ 32
    → IsInt64 resource
    → (update_fee fee resource ≡ ok new)
      ↔ ((fee + pos_part resource ≡ new + neg_part resource) × (new < 2 ^ 32))
unfolding update_fee ◌+ℤ◌
update_fee_exact fee (pos r) new h k = (λ e. ground arith, λ p. ground arith)
update_fee_exact fee (negsuc r) new h k = (λ e. ground arith, λ p. ground arith)
