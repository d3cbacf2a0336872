-- ===== src/Service/Events/Laws.antt =====
-- What the gathering of trade events keeps, and the window of ledgers that is asked for.
use total.Prelude.{
  ℕ, ◌+◌, ◌≤◌, none, List, [], ◌∷◌, ◌++◌, if◌then◌else◌, ◌≡◌, ◌≢◌, refl, sym, ap, ◌∙◌, ◌⊎◌, inl,
  inr, arith, Bool-cases, Option-cases, length, length-append,
}
use mathlib.Core.List.{append_assoc, append-nil}
use total.Bytes.{text, show_nat}
use total.Errors.{wrap, Error, Result, ok, err, both}
use total.Soroban.Types.{ContractEvent}
use total.Service.Events.{
  start_ledger, TradeEvent, parse_trade_event, Tally, count, collect, conclude, gather,
}
use total.Platform.{Platform}

-- The window that is asked for ends at the latest ledger and spans at most 17280 ledgers: it spans
-- all of them, or begins at 0 where there are no more.
start_ledger_window :
    (latest : ℕ)
    → (start_ledger latest ≤ latest)
      × (((start_ledger latest ≡ 0) × (latest ≤ 17280)) ⊎ (latest ≡ start_ledger latest + 17280))
unfolding start_ledger
start_ledger_window latest = ground arith

module _ (P : Platform) where
  -- One more event, if it is there, in front.
  abbrev pub keep : Result (TradeEvent P) → List (TradeEvent P) → List (TradeEvent P)
  keep (ok parsed) more = parsed ∷ more
  keep (err e) more = more
  keep (both parsed e) more = more

  -- The events of successful calls that can be parsed, in their order.
  unfoldable pub readable : List ContractEvent → List (TradeEvent P)
  readable [] = []
  readable (evt ∷ more) =
      let rest = readable more in
      if evt.in_successful_contract_call then keep (parse_trade_event P evt) rest else rest

  -- How many events are of successful calls.
  unfoldable pub attempted : List ContractEvent → ℕ
  attempted [] = 0
  attempted (evt ∷ more) =
      let rest = attempted more in if evt.in_successful_contract_call then rest + 1 else rest

  -- Each event of a successful call is kept or counted as an error, and the last error is there if
  -- any was counted.
  abbrev IsBalanced : Tally P → Type 0
  IsBalanced t =
      (t.successful ≡ length t.events + t.parse_errors)
      × ((t.last_parse_error ≡ none) → t.parse_errors ≡ 0)

  count-IsBalanced :
      (t : Tally P) (r : Result (TradeEvent P)) → IsBalanced t → IsBalanced (count P t r)
  count-IsBalanced t (ok parsed) (sum, clean) =
      (omega (arith, sum, length-append t.events (parsed ∷ [])), clean)
  count-IsBalanced t (err e) (sum, clean) = (omega (arith, sum), λ d. ground arith)
  count-IsBalanced t (both parsed e) (sum, clean) = (omega (arith, sum), λ d. ground arith)

  count-successful :
      (t : Tally P) (r : Result (TradeEvent P)) → (count P t r).successful ≡ t.successful + 1
  count-successful t (ok parsed) = refl
  count-successful t (err e) = refl
  count-successful t (both parsed e) = refl

  collect-IsBalanced :
      (t : Tally P) (evts : List ContractEvent)
      → IsBalanced t
      → IsBalanced (collect P t evts)
        × ((collect P t evts).successful ≡ t.successful + attempted evts)
  unfolding collect attempted parse_trade_event
  collect-IsBalanced t [] h = (h, omega arith)
  collect-IsBalanced t (evt ∷ more) h = elim (Bool-cases evt.in_successful_contract_call) [
    | inl done ↦
        let (balanced, sum) =
          collect-IsBalanced (count P t (parse_trade_event P evt)) more
            (count-IsBalanced t (parse_trade_event P evt) h) in
        rw done (balanced, omega (arith, sum, count-successful t (parse_trade_event P evt)))
    | inr skipped ↦ rw skipped (collect-IsBalanced t more h)
  ]

  conclude-fails :
      (t : Tally P)
      → IsBalanced t
      → t.events ≡ []
      → t.successful ≢ 0
      → (e : Error) × (conclude P t ≡ err e)
  unfolding conclude
  conclude-fails t (sum, clean) kept some_there = elim (Option-cases t.last_parse_error) [
    | inl c ↦ absurd (some_there (sum ∙ rw (kept, clean c) refl))
    | inr (e, bad) ↦
        let several : t.parse_errors ≢ 0 = λ z. some_there (sum ∙ rw (kept, z) refl) in
        rw (bad, conclude)
          (rw kept (
            wrap (text "all " ++ (show_nat t.parse_errors ++ text " events failed to parse: ")) e
                [],
            ground (arith, several, some_there),
          ))
  ]

  count-events :
      (t : Tally P) (r : Result (TradeEvent P)) (more : List (TradeEvent P))
      → (count P t r).events ++ more ≡ t.events ++ keep r more
  count-events t (ok parsed) more = append_assoc t.events (parsed ∷ []) more
  count-events t (err e) more = refl
  count-events t (both parsed e) more = refl

  collect-events :
      (t : Tally P) (evts : List ContractEvent)
      → (collect P t evts).events ≡ t.events ++ readable evts
  unfolding collect readable parse_trade_event
  collect-events t [] = sym (append-nil t.events)
  collect-events t (evt ∷ more) = elim (Bool-cases evt.in_successful_contract_call) [
    | inl done ↦ rw done (
        collect-events (count P t (parse_trade_event P evt)) more
        ∙ count-events t (parse_trade_event P evt) (readable more))
    | inr skipped ↦ rw skipped (collect-events t more)
  ]

  conclude-events : (t : Tally P) → t.events ≢ [] → conclude P t ≡ ok t.events
  unfolding conclude
  conclude-events t h = elim (Option-cases t.last_parse_error) [
    | inl clean ↦ rw (clean, conclude) refl
    | inr (e, bad) ↦ rw (bad, conclude) (ground (arith, h))
  ]

  conclude-ok : (t : Tally P) (l : List (TradeEvent P)) → conclude P t ≡ ok l → l ≡ t.events
  unfolding conclude
  conclude-ok t l e = elim (Option-cases t.last_parse_error) [
    | inl clean ↦ ground (arith, clean)
    | inr (x, bad) ↦ ground (arith, bad)
  ]

  -- What is returned of a list of events are the events of successful calls that can be parsed, in
  -- their order. Where there is any such event that is what is returned: the others do no harm. Where
  -- there is none, although there are events of successful calls, an error is returned.
  pub gather_exact :
      (evts : List ContractEvent)
      → ((l : List (TradeEvent P)) → gather P evts ≡ ok l → l ≡ readable evts)
        × (readable evts ≢ [] → gather P evts ≡ ok (readable evts))
        × (readable evts ≡ [] → attempted evts ≢ 0 → (e : Error) × (gather P evts ≡ err e))
  unfolding gather
  gather_exact evts =
      let empty : Tally P = record {
        events = [];
        parse_errors = 0;
        last_parse_error = none;
        successful = 0;
      } in
      let tally = collect P empty evts in
      let same = collect-events empty evts in
      let (balanced, sum) = collect-IsBalanced empty evts (refl, λ d. refl) in
      (
        λ l e. conclude-ok tally l e ∙ same,
        λ h. conclude-events tally (λ none_kept. h (sym same ∙ none_kept)) ∙ ap (λ l. ok l) same,
        λ none_kept there.
            conclude-fails tally balanced (same ∙ none_kept) (λ z. there (omega (arith, sum, z))),
      )
