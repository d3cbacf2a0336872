-- ===== src/Service/Amount.antt =====
-- internal/service/market.go: `safeFloatToInt64`.
pub mod Laws
use total.Prelude.{◌^◌, ◌-◌, ◌||◌, [], ◌++◌, if◌then◌else◌}
use total.Prelude.Int.{ℤ, pos, negsuc}
use total.Bytes.{text}
use total.Errors.{Result, ok, err, wrap, sentinel, amount_overflow}
use total.Soroban.Types.{scale_factor}
use total.Platform.{Floats}

abbrev pub greatest_int64 : ℤ
greatest_int64 = pos (2 ^ 63 - 1)

abbrev pub least_int64 : ℤ
least_int64 = negsuc (2 ^ 63 - 1)

module _ (F : Floats) where
  unfoldable pub safe_float_to_int64 : F.Float → Result ℤ
  safe_float_to_int64 f =
      if F.is_nan f || F.is_inf f
      then err (wrap [] (sentinel amount_overflow) (text ": invalid float value (NaN or Inf)"))
      else if F.lt (F.of_int greatest_int64) f || F.lt f (F.of_int least_int64)
      then err (
          wrap [] (sentinel amount_overflow)
            (text ": value " ++ (F.show_g f ++ text " exceeds int64 range")))
      else ok (F.truncate f)

  -- `float64(soroban.ScaleFactor)`
  abbrev pub scale : F.Float
  scale = F.of_int (pos scale_factor)
