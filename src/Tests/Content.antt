-- ===== src/Tests/Content.antt =====
-- The theorems on the model and on IPFS, at concrete inputs.
use total.Prelude.{ℕ, ◌+◌, ◌≤◌, List, [], ◌∷◌, replicate, length, none, ◌≡◌, ◌≢◌, ◌↔◌, refl}
use total.Bytes.{Bytes, text}
use total.Errors.{failure}
use total.Model.{MarketMetadata, Market, validate_market}
use total.Model.Laws.{IsSound, validate_market_exact}
use total.Ipfs.Cid.{validate_cid}
use total.Ipfs.Cid.Pattern.{Describes, ipfs_cid_pattern, validate_cid-Describes}
use total.Ipfs.Fetch.{
  Gateway, Answer, status, not_sent, fetch_from_gateway, IsCounted, fetch_from_gateway-requests,
}
use total.Demo.{demo_floats, demo_key}

abbrev metadata : MarketMetadata
metadata = record {
  question = text "Rain?";
  description = text "In May.";
  resolution_source = [];
  category = [];
  end_date = 9;
  created_at = 1;
  created_by = demo_key;
}

abbrev market : Market demo_floats
market = record {
  id = text "m";
  question = text "Rain?";
  description = [];
  resolution_source = [];
  category = [];
  end_date = 9;
  collateral_asset = [];
  liquidity_param = 10000;
  yes_sold = 0;
  no_sold = 0;
  price_yes = 50;
  price_no = 50;
  resolved_at = none;
  resolution = [];
  created_at = 1;
  metadata_hash = [];
}

validate_market_exact_example :
    (validate_market demo_floats market ≡ none) ↔ IsSound demo_floats market
validate_market_exact_example = validate_market_exact demo_floats market

abbrev cid : Bytes
cid = b'Q' ∷ b'm' ∷ replicate 44 b'a'

-- A gateway that answers from a list, and counts the requests.
abbrev listed_get : Bytes → ℕ × List Answer → Answer × (ℕ × List Answer)
listed_get url (n, []) = (not_sent (failure "no answer"), (n + 1, []))
listed_get url (n, a ∷ as') = (a, (n + 1, as'))

abbrev listed : Gateway
listed = record { World = ℕ × List Answer; get = listed_get; pause = λ ms w. (none, w) }

listed-IsCounted : IsCounted listed (λ w. w.0)
listed-IsCounted = record { get_counted = counted; pause_counted = λ ms w. refl }
  where
    counted : (url : Bytes) (w : ℕ × List Answer) → (listed_get url w).1.0 ≡ w.0 + 1
    counted url (n, []) = refl
    counted url (n, a ∷ as') = refl

abbrev busy : Answer
busy = status 429 (text "429 Too Many Requests")

fetch_from_gateway-requests_example :
    (validate_cid cid ≢ none
      → (fetch_from_gateway listed [] cid (λ b. b) (0, busy ∷ busy ∷ [])).1 ≡ (0, busy ∷ busy ∷ []))
    × ((fetch_from_gateway listed [] cid (λ b. b) (0, busy ∷ busy ∷ [])).1.0 ≤ 4)
fetch_from_gateway-requests_example =
    fetch_from_gateway-requests listed [] cid listed-IsCounted (λ b. b) (0, busy ∷ busy ∷ [])

validate_cid-Describes_example :
    (validate_cid cid ≡ none)
    ↔ (Describes ipfs_cid_pattern cid × (10 ≤ length cid) × (length cid ≤ 100))
validate_cid-Describes_example = validate_cid-Describes cid
