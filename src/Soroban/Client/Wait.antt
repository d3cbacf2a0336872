-- ===== src/Soroban/Client/Wait.antt =====
-- `WaitForTransaction`: polling until a transaction settles.
use total.Prelude.{ℕ, ◌+◌, Option, none, some, List, [], ◌∷◌, ◌++◌, ltb, leb, if◌then◌else◌}
use total.Bytes.{Bytes, text, bytes_eq, show_nat}
use total.Errors.{
  Error, sentinel, wrap, Result, ok, err, both, transaction_failed, timed_out, unknown_status,
}
use total.Soroban.Types.{
  GetTransactionResult, tx_result_not_found, tx_result_success, tx_result_failed,
}
use total.Soroban.Client.{State, Client, get_transaction}
use total.Platform.{Platform}

-- What the `select` wakes up for: the context's end, or a tick of the ticker with the time then.
pub data Wake : Type 0 where
  done : Error → Wake
  tick : ℕ → Wake

abbrev pub max_unknown_status_retries : ℕ
max_unknown_status_retries = 5

-- The switch on the status: stop with a result, or go on with a count of unknown statuses.
pub data Verdict : Type 0 where
  stop : Result GetTransactionResult → Verdict
  continue_with : ℕ → Verdict

module _ (P : Platform) where
  unfoldable pub judge : Bytes → ℕ → GetTransactionResult → Verdict
  judge hash unknown r =
      if bytes_eq r.status tx_result_not_found
      then continue_with 0
      else if bytes_eq r.status tx_result_success
      then stop (ok r)
      else if bytes_eq r.status tx_result_failed
      then stop (both r (wrap [] (sentinel transaction_failed) (text ": " ++ r.result_xdr)))
      else if leb max_unknown_status_retries (unknown + 1)
      then stop (
          err (
            wrap [] (sentinel unknown_status) (
              text ": received "
              ++ (P.quote r.status
                  ++ (text " " ++ (show_nat (unknown + 1) ++ (text " times for hash " ++ hash)))))))
      else continue_with (unknown + 1)

  abbrev pub settle : Bytes → ℕ → Result GetTransactionResult × State P → Verdict × State P
  settle hash unknown (ok r, s) = (judge hash unknown r, s)
  settle hash unknown (err e, s) = (stop (err e), s)
  settle hash unknown (both r e, s) = (stop (err e), s)

  -- One poll.
  unfoldable pub poll : Client → Bytes → ℕ → State P → Verdict × State P
  unfolding judge
  poll c hash unknown s = settle hash unknown (get_transaction P c hash s)

  abbrev pub Settled : Type 0
  Settled = Option (Result GetTransactionResult × State P)

  -- `return`, or `continue` with the loop.
  abbrev pub proceed : Verdict × State P → (ℕ → State P → Settled) → Settled
  proceed (stop r, s) again = some (r, s)
  proceed (continue_with k, s) again = again k s

  -- The loop over the wake-ups; `none` while it still waits after the last of them.
  unfoldable pub wait_loop : Client → Bytes → ℕ → List Wake → ℕ → State P → Settled
  wait_loop c hash deadline [] unknown s = none
  wait_loop c hash deadline (done e ∷ wakes) unknown s = some (err e, s)
  wait_loop c hash deadline (tick now ∷ wakes) unknown s =
      if ltb deadline now
      then some (err (wrap [] (sentinel timed_out) (text ": " ++ hash)), s)
      else proceed (poll c hash unknown s) (wait_loop c hash deadline wakes)

  unfoldable pub wait_for_transaction : Client → Bytes → ℕ → ℕ → List Wake → State P → Settled
  unfolding wait_loop
  wait_for_transaction c hash start timeout wakes s = wait_loop c hash (start + timeout) wakes 0 s
