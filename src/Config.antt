-- ===== src/Config.antt =====
-- internal/config/config.go, the configuration of cmd/total/main.go, the levels of
-- internal/logger/logger.go, and the functions that internal/template/template.go gives the
-- templates.
pub mod Laws
pub mod Start
use total.Prelude.{
  ℕ, ◌-◌, ◌+◌, String, Bool, true, false, ◌||◌, List, [], ◌∷◌, ◌++◌, length, take, drop, ltb, leb,
  ◌&&◌, if◌then◌else◌,
}
use total.Prelude.Int.{ℤ, pos}
use total.Bytes.{Bytes, text, bytes_eq, is_empty, contains}
use total.Model.{zero_float}
use total.Platform.{Floats}

pub record NetworkConfig : Type 0 where
  pub horizon_url : Bytes
  pub soroban_rpc_url : Bytes
  pub network_passphrase : Bytes

abbrev pub default_port : Bytes
default_port = text "8080"

abbrev pub default_base_fee : ℤ
default_base_fee = pos 100

unfoldable pub get_network_config : Bytes → NetworkConfig
get_network_config network =
    if bytes_eq network (text "mainnet")
    then record {
      horizon_url = text "https://horizon.stellar.org";
      soroban_rpc_url = text "https://mainnet.sorobanrpc.com";
      network_passphrase = text "Public Global Stellar Network ; September 2015";
    }
    else record {
      horizon_url = text "https://horizon-testnet.stellar.org";
      soroban_rpc_url = text "https://soroban-testnet.stellar.org:443";
      network_passphrase = text "Test SDF Network ; September 2015";
    }

-- `appConfig`
pub record AppConfig : Type 0 where
  pub port : Bytes
  pub log_level : Bytes
  pub network : Bytes
  pub network_config : NetworkConfig
  pub oracle_public_key : Bytes
  pub factory_contract : Bytes
  pub pinata_api_key : Bytes
  pub pinata_api_secret : Bytes

-- The environment gives a text for every name, "" where a variable is not set.
unfoldable pub get_env : (Bytes → Bytes) → String → Bytes → Bytes
get_env env key default_value =
    let value = env (text key) in if is_empty value then default_value else value

-- `to_lower` is `strings.ToLower`.
unfoldable pub parse_config : (Bytes → Bytes) → (Bytes → Bytes) → AppConfig
unfolding get_env get_network_config
parse_config to_lower env =
    let network = to_lower (get_env env "NETWORK" (text "testnet")) in
    record {
      port = get_env env "PORT" default_port;
      log_level = get_env env "LOG_LEVEL" (text "info");
      network = network;
      network_config = get_network_config network;
      oracle_public_key = get_env env "ORACLE_PUBLIC_KEY" [];
      factory_contract = get_env env "MARKET_FACTORY_CONTRACT" [];
      pinata_api_key = get_env env "PINATA_API_KEY" [];
      pinata_api_secret = get_env env "PINATA_API_SECRET" [];
    }

-- The levels of log/slog.
pub data Level : Type 0 where
  level_debug level_info level_warn level_error : Level

unfoldable pub parse_level : (Bytes → Bytes) → Bytes → Level
parse_level to_lower s =
    let word = to_lower s in
    if bytes_eq word (text "debug")
    then level_debug
    else if bytes_eq word (text "info")
    then level_info
    else if bytes_eq word (text "warn") || bytes_eq word (text "warning")
    then level_warn
    else if bytes_eq word (text "error")
    then level_error
    else level_info

-- `isTestnet` of the templates, and the same test in the handler.
unfoldable pub is_testnet : Bytes → Bool
is_testnet passphrase = contains passphrase (text "Test")

unfoldable pub network_name : Bytes → Bytes
unfolding is_testnet
network_name passphrase = if is_testnet passphrase then text "testnet" else text "public"

-- The first eight bytes and the last eight of a long identifier.
unfoldable pub short_id : Bytes → Bytes
short_id id =
    if leb (length id) 19 then id else take 8 id ++ (text "..." ++ drop (length id - 8) id)

-- `truncate`, for a length that is not negative.
unfoldable pub truncate : Bytes → ℕ → Bytes
truncate s n = if leb (length s) n then s else take n s ++ text "..."

-- `escape` is `url.QueryEscape`.
unfoldable pub stellar_uri : (Bytes → Bytes) → Bytes → Bytes
stellar_uri escape xdr = text "web+stellar:tx?xdr=" ++ escape xdr

unfoldable pub lab_url : (Bytes → Bytes) → Bytes → Bytes → Bytes
lab_url escape xdr passphrase =
    text "https://lab.stellar.org/transaction/cli-sign?"
    ++ (text "networkPassphrase=" ++ (escape passphrase ++ (text "&xdr=" ++ escape xdr)))

-- `div`
unfoldable pub safe_div : (F : Floats) → F.Float → F.Float → F.Float
safe_div F a b = if F.eq b (zero_float F) then zero_float F else F.div a b
