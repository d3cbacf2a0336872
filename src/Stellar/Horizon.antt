-- ===== src/Stellar/Horizon.antt =====
-- internal/stellar/client.go: what the program reads from Horizon.
use total.Prelude.{none, some, if◌then◌else◌}
use total.Bytes.{Bytes, is_empty}
use total.Errors.{
  Error, Result, ok, err, both, Action, sentinel, wrapped, account_not_found, empty_horizon_url,
  empty_passphrase,
}
use total.Soroban.Client.{State}
use total.Platform.{Platform}

pub record HorizonClient : Type 0 where
  pub horizon_url : Bytes
  pub network_passphrase : Bytes

unfoldable pub new_horizon_client : Bytes → Bytes → Result HorizonClient
new_horizon_client url passphrase =
    if is_empty url
    then err (sentinel empty_horizon_url)
    else if is_empty passphrase
    then err (sentinel empty_passphrase)
    else ok (record { horizon_url = url; network_passphrase = passphrase })

module _ (P : Platform) where
  unfoldable pub account_error : Error → Error
  account_error e =
      if P.is_not_found_error e
      then sentinel account_not_found
      else wrapped "failed to get account: " e

  abbrev pub read_account : Result P.Account → Result P.Account
  read_account (ok a) = ok a
  read_account (err e) = err (account_error e)
  read_account (both a e) = err (account_error e)

  unfoldable pub get_account : HorizonClient → Bytes → Action (State P) P.Account
  unfolding account_error
  get_account c public_key s = elim (P.context_error s.world) [
    | some e ↦ (err (wrapped "context error: " e), s)
    | none ↦
        let (r, w) = P.account_detail public_key s.world in (read_account r, record s { world = w })
  ]
