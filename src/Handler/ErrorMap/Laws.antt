-- ===== src/Handler/ErrorMap/Laws.antt =====
-- `map_error`: its statuses, what wrapping changes, and what falls through.
use total.Prelude.{
  ℕ, String, false, List, [], ◌∷◌, All, ◌∙◌, ◌≡◌, refl, ◌⊎◌, inl, inr, arith, Bool-cases,
}
use total.Bytes.{Bytes}
use total.Errors.{Error, Sentinel, message, errors_is, wrap, simulation_failed}
use total.Handler.ErrorCode.{answer, bad_request, ErrorResponse, map_contract_error}
use total.Handler.ErrorCode.Laws.{response_of_code_status}
use total.Handler.ErrorMap.{fixed, Row, rows, default_response, respond_by, by_code, map_error}

-- The statuses of the handler's error pages.
abbrev pub IsErrorStatus : ℕ → Type 0
IsErrorStatus n = (n ≡ 400) ⊎ (n ≡ 404) ⊎ (n ≡ 409) ⊎ (n ≡ 500) ⊎ (n ≡ 502) ⊎ (n ≡ 503) ⊎ (n ≡ 504)

map_contract_error_status : (s : Bytes) → IsErrorStatus (map_contract_error s).status
unfolding map_contract_error
map_contract_error_status s = ground (arith, response_of_code_status _)

respond_by_status :
    (table : List Row) (e : Error) (s : Bytes)
    → All (λ row. IsErrorStatus (row.respond s).status) table
    → IsErrorStatus (respond_by table e s).status
unfolding respond_by default_response
respond_by_status [] e s h = ground (arith, map_contract_error_status s)
respond_by_status (row ∷ more) e s (h, hs) = ground (arith, respond_by_status more e s hs)

by_code_status :
    (r : ErrorResponse) (s : Bytes) → IsErrorStatus r.status → IsErrorStatus (by_code r s).status
unfolding by_code
by_code_status r s h = ground (arith, map_contract_error_status s)

-- Every error is answered with one of the statuses 400, 404, 409, 500, 502, 503 and 504.
pub map_error_status : (e : Error) → IsErrorStatus (map_error e).status
unfolding map_error rows
map_error_status e =
    let simulated =
      by_code_status
        (answer "Transaction simulation failed. Your parameters may be invalid." bad_request)
        (message e) (omega arith) in
    respond_by_status rows e (message e) (omega (arith, simulated))

-- No row of the table matches.
abbrev pub IsUnlisted : Error → List Row → Type 0
IsUnlisted e = All (λ row. errors_is e row.sentinel ≡ false)

-- A row that does not match, or whose answer does not depend on the text.
abbrev IsSteady : Error → Row → Type 0
IsSteady e row =
    (errors_is e row.sentinel ≡ false) ⊎ ((s t : Bytes) → row.respond s ≡ row.respond t)

respond_by_skip :
    (row : Row) (more : List Row) (e : Error) (s t : Bytes)
    → errors_is e row.sentinel ≡ false
    → IsUnlisted e more ⊎ (respond_by more e s ≡ respond_by more e t)
    → IsUnlisted e (row ∷ more) ⊎ (respond_by (row ∷ more) e s ≡ respond_by (row ∷ more) e t)
unfolding respond_by
respond_by_skip row more e s t other (inl unlisted) = inl (other, unlisted)
respond_by_skip row more e s t other (inr same) = inr (rw other same)

respond_by_steady :
    (table : List Row) (e : Error) (s t : Bytes)
    → All (IsSteady e) table
    → IsUnlisted e table ⊎ (respond_by table e s ≡ respond_by table e t)
unfolding respond_by
respond_by_steady [] e s t h = inl tt
respond_by_steady (row ∷ more) e s t (inl other, hs) =
    respond_by_skip row more e s t other (respond_by_steady more e s t hs)
respond_by_steady (row ∷ more) e s t (inr steady, hs) =
    elim (Bool-cases (errors_is e row.sentinel)) [
      | inl match ↦ inr (rw match (steady s t))
      | inr other ↦ respond_by_skip row more e s t other (respond_by_steady more e s t hs)
    ]

fixed-IsSteady : (e : Error) (s : Sentinel) (m : String) (n : ℕ) → IsSteady e (fixed s m n)
fixed-IsSteady e s m n = inr (λ a b. refl)

rows-IsSteady : (e : Error) → errors_is e simulation_failed ≡ false → All (IsSteady e) rows
unfolding rows
rows-IsSteady e h = search (fixed-IsSteady, inl) depth 40

respond_by-wrap :
    (table : List Row) (before after : Bytes) (e : Error) (s : Bytes)
    → respond_by table (wrap before e after) s ≡ respond_by table e s
unfolding respond_by errors_is
respond_by-wrap [] before after e s = refl
respond_by-wrap (row ∷ more) before after e s = rw (respond_by-wrap more before after e s)

-- What the services wrap around an error does not change its answer: an error that matches a row of
-- the table, and is not ErrSimulationFailed, whose answer may be read from its text, is answered
-- alike with any text before and after it.
pub map_error-wrap :
    (before after : Bytes) (e : Error)
    → errors_is e simulation_failed ≡ false
    → ¬ (IsUnlisted e rows)
    → map_error (wrap before e after) ≡ map_error e
unfolding map_error
map_error-wrap before after e other listed =
    respond_by-wrap rows before after e (message (wrap before e after))
    ∙ elim (respond_by_steady rows e (message (wrap before e after)) (message e)
        (rows-IsSteady e other)) [ inl unlisted ↦ absurd (listed unlisted) | inr same ↦ same ]
