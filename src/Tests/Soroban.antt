-- ===== src/Tests/Soroban.antt =====
-- The theorems on contract values, fees and the RPC client, at concrete inputs.
use total.Prelude.{◌+◌, ◌-◌, ◌<◌, ◌^◌, List, [], ◌∷◌, ◌≡◌, ◌↔◌, inl, inr, arith}
use total.Prelude.Int.{pos, negsuc, IsInt64, pos_part, neg_part}
use total.Bytes.{text}
use total.Errors.{ok}
use total.Soroban.ScVal.{sc_i128, encode_i128, decode_i128, Int128Parts}
use total.Soroban.ScVal.Laws.{decode_i128-encode_i128, decode_i128_exact, parts_value}
use total.Soroban.Invoker.Fee.{update_fee, update_fee_exact}
use total.Soroban.Client.Wait.{Wake, tick, wait_for_transaction}
use total.Soroban.Client.Laws.{wait_for_transaction-Ends, Ends}
use total.Demo.{demo, demo_client, demo_state}

decode_i128-encode_i128_example : decode_i128 (encode_i128 (negsuc 41)) ≡ ok (negsuc 41)
decode_i128-encode_i128_example = decode_i128-encode_i128 (negsuc 41) (omega arith)

abbrev large_parts : Int128Parts
large_parts = record { hi = negsuc 0; lo = 2 ^ 64 - 5 }

decode_i128_exact_example :
    (decode_i128 (sc_i128 large_parts) ≡ ok (negsuc 4))
    ↔ (IsInt64 (negsuc 4) × (negsuc 4 ≡ parts_value large_parts))
decode_i128_exact_example = decode_i128_exact large_parts (negsuc 4) (omega arith)

update_fee_exact_example :
    (update_fee 100 (pos 1000) ≡ ok 1100)
    ↔ ((100 + pos_part (pos 1000) ≡ 1100 + neg_part (pos 1000)) × (1100 < 2 ^ 32))
update_fee_exact_example = update_fee_exact 100 (pos 1000) 1100 (omega arith) (omega arith)

-- Two ticks in time, for each of which the server has a reply, and one after the deadline.
abbrev wakes : List Wake
wakes = tick 12 ∷ tick 14 ∷ tick 31 ∷ []

wait_for_transaction-Ends_example :
    Ends demo 3
      (wait_for_transaction demo demo_client (text "ab") 10 20 wakes (demo_state (0 ∷ 1 ∷ [])))
wait_for_transaction-Ends_example =
    wait_for_transaction-Ends demo demo_client (text "ab") 10 20 wakes (demo_state (0 ∷ 1 ∷ []))
      (inr (inr (inl (omega arith))))
