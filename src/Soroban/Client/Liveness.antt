-- ===== src/Soroban/Client/Liveness.antt =====
-- `WaitForTransaction`: a transaction that succeeds in time is reported.
use total.Prelude.{ℕ, ◌+◌, ◌≤◌, true, false, some, List, ◌∷◌, ltb, ◌≡◌, refl, arith}
use total.Bytes.{Bytes, bytes_eq}
use total.Errors.{ok}
use total.Soroban.Types.{GetTransactionResult, tx_result_not_found, tx_result_success}
use total.Soroban.Client.{State, Client, get_transaction}
use total.Soroban.Client.Wait.{Wake, tick, judge, poll, wait_loop, wait_for_transaction}
use total.Platform.{Platform}

-- A run of the wake-ups in which the server answers NOT_FOUND, any number of times, and then SUCCESS,
-- with no tick after the deadline until then.
pub data Settles (P : Platform) (c : Client) (hash : Bytes) (deadline : ℕ)
    : List Wake → State P → GetTransactionResult → State P → Type 0 where
  succeeds :
      {now : ℕ} {wakes : List Wake} {s t : State P} {r : GetTransactionResult}
      → now ≤ deadline
      → get_transaction P c hash s ≡ (ok r, t)
      → bytes_eq r.status tx_result_success ≡ true
      → bytes_eq r.status tx_result_not_found ≡ false
      → Settles P c hash deadline (tick now ∷ wakes) s r t
  not_yet :
      {now : ℕ} {wakes : List Wake} {s t u : State P} {r q : GetTransactionResult}
      → now ≤ deadline
      → get_transaction P c hash s ≡ (ok q, u)
      → bytes_eq q.status tx_result_not_found ≡ true
      → Settles P c hash deadline wakes u r t
      → Settles P c hash deadline (tick now ∷ wakes) s r t

module _ (P : Platform) (c : Client) (hash : Bytes) (deadline : ℕ) where
  wait_loop-Settles :
      {wakes : List Wake} {s t : State P} {r : GetTransactionResult} (unknown : ℕ)
      → Settles P c hash deadline wakes s r t
      → wait_loop P c hash deadline wakes unknown s ≡ some (ok r, t)
  unfolding wait_loop poll judge
  wait_loop-Settles unknown (succeeds {now = now} early got success new) =
      let in_time : ltb deadline now ≡ false = ground (arith, early) in
      rw (in_time, poll, got, judge, new, success) refl
  wait_loop-Settles unknown (not_yet {now = now} early got missing later) =
      let in_time : ltb deadline now ≡ false = ground (arith, early) in
      rw (in_time, poll, got, judge, missing) (wait_loop-Settles 0 later)

-- If the server answers NOT_FOUND, any number of times, and then SUCCESS, with no tick after the
-- deadline until then, `wait_for_transaction` returns this last answer, in the state after it and
-- with no error, whatever wakes it up later.
pub wait_for_transaction-Settles :
    (P : Platform) (c : Client) (hash : Bytes) (start timeout : ℕ) (wakes : List Wake)
    (s t : State P) (r : GetTransactionResult)
    → Settles P c hash (start + timeout) wakes s r t
    → wait_for_transaction P c hash start timeout wakes s ≡ some (ok r, t)
unfolding wait_for_transaction
wait_for_transaction-Settles P c hash start timeout wakes s t r h =
    wait_loop-Settles P c hash (start + timeout) 0 h
