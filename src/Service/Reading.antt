-- ===== src/Service/Reading.antt =====
-- internal/service: what the services share. They read a contract by simulating a call of it, and
-- decode the value that the simulation returns.
use total.Prelude.{String, Option, none, some, List, [], ◌∷◌, ◌++◌, length}
use total.Prelude.Int.{ℤ}
use total.Bytes.{Bytes, text, show_nat}
use total.Errors.{
  Error, Result, ok, err, both, Action, ◌>>=◌, during, lift, pure, fail, plain, wrapped,
}
use total.Stellar.Horizon.{HorizonClient}
use total.Stellar.Builder.{Builder}
use total.Soroban.Types.{SimulateTransactionResult, SimulateResult}
use total.Soroban.ScVal.{ScVal, decode_i128}
use total.Soroban.Address.{parse_return_value}
use total.Soroban.Client.{State, Client, simulate_transaction}
use total.Platform.{Platform}

-- `MarketService`, without its logger.
pub record MarketService : Type 0 where
  pub stellar_client : HorizonClient
  pub soroban_client : Client
  pub tx_builder : Builder
  pub oracle_public_key : Bytes

-- `simResult.Results[0].XDR`, "" where there are no results.
abbrev pub first_xdr : List SimulateResult → Bytes
first_xdr [] = []
first_xdr (r ∷ rs) = r.xdr

abbrev pub require_result : {S : Type 0} → SimulateTransactionResult → Action S Bytes
require_result sim = elim (first_xdr sim.results) [
  | [] ↦ fail (plain (text "no result from simulation"))
  | b ∷ bs ↦ pure (b ∷ bs)
]

-- `if err := v; err != nil { return fmt.Errorf("before: %w", err) }`
abbrev pub check : {S : Type 0} → String → Option Error → Action S (Unit {0})
check before none = pure tt
check before (some e) = fail (wrapped before e)

module _ (P : Platform) where
  -- The steps from a built transaction to the value that its simulation returns, the same in every
  -- reader but that of a balance.
  unfoldable pub read_contract : Client → String → Bytes → Action (State P) ScVal
  read_contract c label tx_xdr = do
    sim ← during label (simulate_transaction P c tx_xdr)
    _ ← elim sim.error [
      | [] ↦ pure tt
      | b ∷ bs ↦ fail (plain (text "simulation error: " ++ (b ∷ bs)))
    ]
    xdr ← require_result sim
    during "failed to parse return value: " (lift (parse_return_value P xdr))

-- A tuple of at least two integers.
unfoldable pub decode_pair : String → String → List ScVal → Result (ℤ × ℤ)
decode_pair first second (a ∷ b ∷ rest) = elim (decode_i128 a) [
  | ok x ↦ elim (decode_i128 b) [
    | ok y ↦ ok (x, y)
    | err e ↦ err (wrapped second e)
    | both y e ↦ err (wrapped second e)
  ]
  | err e ↦ err (wrapped first e)
  | both x e ↦ err (wrapped first e)
]
decode_pair first second tuple =
    err (plain (text "expected tuple of 2 elements, got " ++ show_nat (length tuple)))
