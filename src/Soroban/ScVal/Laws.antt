-- ===== src/Soroban/ScVal/Laws.antt =====
-- The encoders and the decoders of contract values fit together.
use total.Prelude.{ℕ, ◌+◌, ◌*◌, ◌^◌, ◌<◌, ◌≡◌, ◌↔◌, arith}
use total.Prelude.Int.{ℤ, pos, negsuc, pos_part, neg_part, IsInt64, sub_ℕ}
use total.Errors.{ok}
use total.Soroban.ScVal.{Int128Parts, sc_i128, encode_i128, narrow, decode_i128}

-- Every int64 survives being sent as an I128 and read back.
pub decode_i128-encode_i128 : (v : ℤ) → IsInt64 v → decode_i128 (encode_i128 v) ≡ ok v
unfolding decode_i128 encode_i128
decode_i128-encode_i128 (pos n) h = ground arith
decode_i128-encode_i128 (negsuc n) h = ground arith

-- The integer that the two halves stand for: hi · 2⁶⁴ + lo.
abbrev pub parts_value : Int128Parts → ℤ
parts_value p = sub_ℕ (pos_part p.hi * 2 ^ 64 + p.lo) (neg_part p.hi * 2 ^ 64)

narrow_sound :
    (hi : ℤ) (lo : ℕ) (v : ℤ)
    → lo < 2 ^ 64
    → narrow hi lo ≡ ok v
    → IsInt64 v × (v ≡ parts_value (record { hi = hi; lo = lo }))
unfolding narrow
narrow_sound (pos n) lo v h e = ground arith
narrow_sound (negsuc n) lo v h e = ground arith

narrow_complete :
    (hi : ℤ) (lo : ℕ) (v : ℤ)
    → lo < 2 ^ 64
    → IsInt64 v
    → v ≡ parts_value (record { hi = hi; lo = lo })
    → narrow hi lo ≡ ok v
unfolding narrow
narrow_complete (pos n) lo v h r e = ground arith
narrow_complete (negsuc n) lo v h r e = ground arith

-- Of an I128 whose low half is a uint64, `decode_i128` returns an int64 exactly when the 128-bit
-- value fits into one, and then it is that value.
pub decode_i128_exact :
    (p : Int128Parts) (v : ℤ)
    → p.lo < 2 ^ 64
    → (decode_i128 (sc_i128 p) ≡ ok v) ↔ (IsInt64 v × (v ≡ parts_value p))
unfolding decode_i128
decode_i128_exact p v h =
    (λ e. narrow_sound p.hi p.lo v h e, λ (r, e). narrow_complete p.hi p.lo v h r e)
