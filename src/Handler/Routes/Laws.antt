-- ===== src/Handler/Routes/Laws.antt =====
-- internal/handler/market.go: every route answers every request.
use total.Bytes.{Bytes}
use total.Handler.Web.{Web}
use total.Platform.{Platform}

-- One more of a list of facts.
infixr 3 ◌also◌
abbrev ◌also◌ : {A B : Type 0} → A → B → A × B
a also b = (a, b)
