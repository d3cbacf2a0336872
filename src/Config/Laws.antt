-- ===== src/Config/Laws.antt =====
-- internal/config/config.go and internal/template/template.go: the network that a configuration
-- names is the one that pages show, and identifiers that are cut for display.
use total.Prelude.{
  ◌-◌, ◌++◌, length, take, drop, leb, ◌≡◌, ◌≢◌, ◌≤◌, ◌↔◌, ◌∙◌, sym, refl, arith, Bool-cases, inl,
  inr, length-append, length-take, length-drop,
}
use total.Bytes.{Bytes, text, utf8, bytes_eq, bytes_eq_iff, contains, index, has_prefix}
use total.Config.{get_network_config, parse_config, network_name, is_testnet, short_id}

abbrev public_passphrase : Bytes
public_passphrase = text "Public Global Stellar Network ; September 2015"

abbrev test_passphrase : Bytes
test_passphrase = text "Test SDF Network ; September 2015"

network_name_public : network_name public_passphrase ≡ text "public"
unfolding network_name is_testnet contains index has_prefix text utf8
network_name_public = refl

network_name_test : network_name test_passphrase ≡ text "testnet"
unfolding network_name is_testnet contains index has_prefix text utf8
network_name_test = refl

names_differ : text "testnet" ≢ text "public"
unfolding text utf8
names_differ e = ground (arith, e)

pub network_name-config :
    (network : Bytes)
    → (network_name (get_network_config network).network_passphrase ≡ text "public")
      ↔ (network ≡ text "mainnet")
unfolding get_network_config
network_name-config network = elim (Bool-cases (bytes_eq network (text "mainnet"))) [
  | inl same ↦
      rw (same, get_network_config)
        ((λ _. (bytes_eq_iff network (text "mainnet")).0 same), (λ _. network_name_public))
  | inr other ↦
      rw (other, get_network_config)
        (
          (λ e. absurd (names_differ (sym network_name_test ∙ e))),
          (λ e. absurd (ground (arith, other, (bytes_eq_iff network (text "mainnet")).1 e))),
        )
]

-- The pages name the public network exactly if the configuration's network, in lower case, is
-- "mainnet"; they name the test network for all others.
network_name-parse_config :
    (to_lower env : Bytes → Bytes)
    → (network_name (parse_config to_lower env).network_config.network_passphrase ≡ text "public")
      ↔ ((parse_config to_lower env).network ≡ text "mainnet")
unfolding parse_config
network_name-parse_config to_lower env = network_name-config _

dots_length : length (text "...") ≡ 3
unfolding text utf8
dots_length = refl

-- An identifier for display has at most nineteen bytes.
short_id_bound : (id : Bytes) → length (short_id id) ≤ 19
unfolding short_id
short_id_bound id = elim (Bool-cases (leb (length id) 19)) [
  | inl short ↦ rw (short, short_id) (ground (arith, short))
  | inr long ↦
      let end = drop (length id - 8) id in
      rw (long, short_id)
        (ground (
          arith,
          long,
          length-append (take 8 id) (text "..." ++ end),
          length-append (text "...") end,
          dots_length,
          length-take 8 id (ground (arith, long)),
          length-drop (length id - 8) id,
        ))
]
