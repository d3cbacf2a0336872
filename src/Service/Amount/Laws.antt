-- ===== src/Service/Amount/Laws.antt =====
-- What `safeFloatToInt64` accepts, and its edge.
use total.Prelude.{false, ◌^◌, ◌-◌, ◌≡◌, arith}
use total.Prelude.Int.{ℤ, pos, negsuc}
use total.Errors.{ok}
use total.Service.Amount.{safe_float_to_int64, greatest_int64, least_int64}
use total.Platform.{Floats}

module _ (F : Floats) where
  -- An integer is the integral part of a finite float64 that is not out of the range of int64.
  pub record IsTruncation (f : F.Float) (n : ℤ) : Type 0 where
    pub number : F.is_nan f ≡ false
    pub finite : F.is_inf f ≡ false
    pub not_above : F.lt (F.of_int (pos (2 ^ 63 - 1))) f ≡ false
    pub not_below : F.lt f (F.of_int (negsuc (2 ^ 63 - 1))) ≡ false
    pub truncated : F.truncate f ≡ n

  pub safe_float_to_int64-IsTruncation :
      (f : F.Float) (n : ℤ) → safe_float_to_int64 F f ≡ ok n → IsTruncation f n
  unfolding safe_float_to_int64
  safe_float_to_int64-IsTruncation f n e = record {
    number = ground (arith, e);
    finite = ground (arith, e);
    not_above = ground (arith, e);
    not_below = ground (arith, e);
    truncated = ground (arith, e);
  }

  -- What IEEE 754 says of float64 about 2⁶³: the greatest int64 rounds up to it, and it is a finite
  -- number, not below itself and not below the least int64.
  pub record IsDoubleAtEdge : Type 0 where
    pub rounds_up : F.of_int greatest_int64 ≡ F.of_int (pos (2 ^ 63))
    pub number : F.is_nan (F.of_int (pos (2 ^ 63))) ≡ false
    pub finite : F.is_inf (F.of_int (pos (2 ^ 63))) ≡ false
    pub irreflexive : F.lt (F.of_int (pos (2 ^ 63))) (F.of_int (pos (2 ^ 63))) ≡ false
    pub above_least : F.lt (F.of_int (pos (2 ^ 63))) (F.of_int least_int64) ≡ false

  -- In float64 arithmetic as IEEE 754 has it about 2⁶³, 2⁶³ itself passes the range check, although
  -- it is no int64, and is handed on to the conversion to int64.
  pub safe_float_to_int64_edge :
      IsDoubleAtEdge
      → safe_float_to_int64 F (F.of_int (pos (2 ^ 63))) ≡ ok (F.truncate (F.of_int (pos (2 ^ 63))))
  unfolding safe_float_to_int64
  safe_float_to_int64_edge h =
      ground (arith, h.rounds_up, h.number, h.finite, h.irreflexive, h.above_least)
