-- ===== src/Soroban/Client/Laws.antt =====
-- The RPC client: request numbers, and the ways in which the wait for a transaction can end.
use total.Prelude.{
  ℕ, ◌+◌, ◌≤◌, ◌<◌, true, false, none, some, List, [], ◌∷◌, ltb, length, ◌≡◌, refl, ◌∙◌, ◌⊎◌, inl,
  inr, arith, Bool-cases, lt→ltb,
}
use total.Bytes.{Bytes, bytes_eq}
use total.Errors.{Result, ok, err, both, errors_is, transaction_failed, unknown_status}
use total.Soroban.Types.{
  Params, GetTransactionResult, tx_result_not_found, tx_result_success, tx_result_failed,
}
use total.Soroban.Client.{State, Client, call, call_for, get_transaction}
use total.Soroban.Client.Wait.{
  Wake, done, tick, judge, settle, poll, proceed, Settled, wait_loop, wait_for_transaction, Verdict,
  stop, continue_with,
}
use total.Platform.{Platform}

-- Every call takes one request number, whether it succeeds or at whatever step it fails.
call-request_id :
    (P : Platform) (c : Client) (method : Bytes) (arguments : Params) (s : State P)
    → (call P c method arguments s).1.request_id ≡ s.request_id + 1
unfolding call
call-request_id P c method arguments s = ground arith

call_for-request_id :
    (P : Platform) {A : Type 0} (unmarshal : P.Raw → Result A) (c : Client) (method : Bytes)
    (arguments : Params) (s : State P)
    → (call_for P unmarshal c method arguments s).1.request_id ≡ s.request_id + 1
unfolding call_for
call_for-request_id P unmarshal c method arguments s =
    ground (arith, call-request_id P c method arguments s)

-- Among the wake-ups is the context's end, or a tick after the deadline.
abbrev pub Expires : ℕ → List Wake → Type 0
Expires deadline [] = ⊥
Expires deadline (done e ∷ wakes) = Unit
Expires deadline (tick now ∷ wakes) = (deadline < now) ⊎ Expires deadline wakes

-- A result is reported for a transaction that succeeded, with no error, or for one that failed,
-- beside `ErrTransactionFailed`.
abbrev pub IsHonest : Result GetTransactionResult → Type 0
IsHonest (ok r) = bytes_eq r.status tx_result_success ≡ true
IsHonest (err e) = Unit
IsHonest (both r e) =
    (bytes_eq r.status tx_result_failed ≡ true) × (errors_is e transaction_failed ≡ true)

-- The wait is over, honestly, and the request number has not passed a bound.
abbrev pub Ends : (P : Platform) → ℕ → Settled P → Type 0
Ends P bound none = ⊥
Ends P bound (some (r, t)) = IsHonest r × (t.request_id ≤ bound)

abbrev IsHonestVerdict : Verdict → Type 0
IsHonestVerdict (stop r) = IsHonest r
IsHonestVerdict (continue_with k) = Unit

module _ (P : Platform) (c : Client) (hash : Bytes) where
  judge-IsHonest :
      (unknown : ℕ) (r : GetTransactionResult) → IsHonestVerdict (judge P hash unknown r)
  unfolding judge errors_is
  judge-IsHonest unknown r = ground arith

  settle-IsHonest :
      (unknown : ℕ) (m : Result GetTransactionResult × State P)
      → IsHonestVerdict (settle P hash unknown m).0
        × ((settle P hash unknown m).1.request_id ≡ m.1.request_id)
  settle-IsHonest unknown (ok r, s) = (judge-IsHonest unknown r, refl)
  settle-IsHonest unknown (err e, s) = (tt, refl)
  settle-IsHonest unknown (both r e, s) = (tt, refl)

  poll-IsHonest :
      (unknown : ℕ) (s : State P)
      → IsHonestVerdict (poll P c hash unknown s).0
        × ((poll P c hash unknown s).1.request_id ≡ s.request_id + 1)
  unfolding poll get_transaction
  poll-IsHonest unknown s =
      let (honest, kept) = settle-IsHonest unknown (get_transaction P c hash s) in
      (honest, kept ∙ call_for-request_id P _ c _ _ s)

  proceed-Ends :
      (v : Verdict × State P) (again : ℕ → State P → Settled P) (bound : ℕ)
      → IsHonestVerdict v.0
      → v.1.request_id ≤ bound
      → ((k : ℕ) → Ends P bound (again k v.1))
      → Ends P bound (proceed P v again)
  proceed-Ends (stop r, s) again bound honest low h = (honest, low)
  proceed-Ends (continue_with k, s) again bound honest low h = h k

  wait_loop-Ends :
      (deadline : ℕ) (wakes : List Wake) (unknown : ℕ) (s : State P) (bound : ℕ)
      → s.request_id + length wakes ≤ bound
      → Expires deadline wakes
      → Ends P bound (wait_loop P c hash deadline wakes unknown s)
  unfolding wait_loop
  wait_loop-Ends deadline [] unknown s bound low h = elim h [ ]
  wait_loop-Ends deadline (done e ∷ wakes) unknown s bound low h = (tt, omega arith)
  wait_loop-Ends deadline (tick now ∷ wakes) unknown s bound low (inl late) =
      rw (lt→ltb deadline now late) (tt, omega arith)
  wait_loop-Ends deadline (tick now ∷ wakes) unknown s bound low (inr later) =
      elim (Bool-cases (ltb deadline now)) [
        | inl late ↦ rw late (tt, omega arith)
        | inr early ↦
            let (honest, count) = poll-IsHonest unknown s in
            rw early (
              proceed-Ends (poll P c hash unknown s) (wait_loop P c hash deadline wakes) bound
                honest (omega (arith, count))
                λ k. wait_loop-Ends deadline wakes k _ bound (omega (arith, count)) later)
      ]

-- If the wake-ups hold the context's end or a tick after the deadline, `wait_for_transaction`
-- returns, whatever the server answers. It returns a result with no error only if the status is
-- SUCCESS, a result beside an error only if the status is FAILED and the error is
-- ErrTransactionFailed, and it makes at most one request for each wake-up.
pub wait_for_transaction-Ends :
    (P : Platform) (c : Client) (hash : Bytes) (start timeout : ℕ) (wakes : List Wake) (s : State P)
    → Expires (start + timeout) wakes
    → Ends P (s.request_id + length wakes) (wait_for_transaction P c hash start timeout wakes s)
unfolding wait_for_transaction
wait_for_transaction-Ends P c hash start timeout wakes s h =
    wait_loop-Ends P c hash (start + timeout) wakes 0 s _ (omega arith) h

-- The status is none of the three that the switch names.
abbrev pub IsUnknown : GetTransactionResult → Type 0
IsUnknown r =
    (bytes_eq r.status tx_result_not_found ≡ false)
    × (bytes_eq r.status tx_result_success ≡ false)
    × (bytes_eq r.status tx_result_failed ≡ false)

-- The fifth unknown status ends the wait with ErrUnknownStatus, and one before it raises the count.
abbrev pub Counts : Verdict → ℕ → GetTransactionResult → Type 0
Counts (stop (err e)) unknown r = (4 ≤ unknown) × (errors_is e unknown_status ≡ true)
Counts (stop (ok r')) unknown r = ⊥
Counts (stop (both r' e)) unknown r = ⊥
Counts (continue_with k) unknown r = (unknown < 4) × (k ≡ unknown + 1)

-- An unknown status after at least four others in a row stops the wait with ErrUnknownStatus; after
-- fewer, the wait goes on, with a count that is one higher.
judge-Counts :
    (P : Platform) (hash : Bytes) (unknown : ℕ) (r : GetTransactionResult)
    → IsUnknown r
    → Counts (judge P hash unknown r) unknown r
unfolding judge errors_is
judge-Counts P hash unknown r h = ground arith
