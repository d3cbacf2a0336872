-- ===== src/Tests/Handler.antt =====
-- The theorems on the handler's error answers, at concrete inputs.
use total.Prelude.{◌⊎◌, [], ◌≡◌, refl, true, false}
use total.Prelude.Int.{pos, negsuc}
use total.Bytes.{has_suffix, Bytes, text, index, parse_int}
use total.Errors.{
  Error, errors_is, same, number, sentinel, wrap, wrapped, model_invalid_outcome, invalid_slippage,
}
use total.Handler.ErrorCode.{marker, extract_last_error_code, closing}
use total.Handler.ErrorCode.Laws.{Occurs, extract_last_error_code_sound}
use total.Handler.ErrorCode.Last.{extract_last_error_code_last}
use total.Handler.ErrorMap.{map_error, rows}
use total.Handler.ErrorMap.Laws.{map_error-wrap, IsUnlisted}

-- Two codes, of which the second is reported.
abbrev nested : Bytes
nested = text "host: Error(Contract, #8) in Error(Contract, #10)."

abbrev before : Bytes
before = text "host: Error(Contract, #8) in "

extract_last_error_code_last_example : extract_last_error_code nested ≡ pos 10
unfolding index text marker closing parse_int has_suffix
extract_last_error_code_last_example =
    extract_last_error_code_last before (text "10") (text ".") (pos 10) refl refl refl refl

-- A slippage that is refused, as the service reports it.
abbrev refused : Error
refused = wrapped "buy request validation failed: " (sentinel invalid_slippage)

-- An outcome that the model refuses.
abbrev no_outcome : Error
no_outcome = wrapped "buy request validation failed: " (sentinel model_invalid_outcome)

slippage-listed : ¬ (IsUnlisted (sentinel invalid_slippage) rows)
unfolding rows errors_is same number
slippage-listed h = absurd (true_ne_false h.1.1.1.1.1.1.1.1.1.1.1.1.0)
  where
    true_ne_false : true ≡ false → ⊥
    true_ne_false e = cc

map_error-wrap_example :
    map_error (wrap (text "buy request validation failed: ") (sentinel invalid_slippage) [])
    ≡ map_error (sentinel invalid_slippage)
unfolding errors_is
map_error-wrap_example =
    map_error-wrap (text "buy request validation failed: ") [] (sentinel invalid_slippage) refl
      slippage-listed

extract_last_error_code_sound_example :
    (extract_last_error_code nested ≡ negsuc 0) ⊎ Occurs (extract_last_error_code nested) nested
extract_last_error_code_sound_example = extract_last_error_code_sound nested
