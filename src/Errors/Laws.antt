-- ===== src/Errors/Laws.antt =====
-- Inversion of calls that succeeded, for proofs that keep the parts shut.
use total.Prelude.{String, ◌≡◌, refl, arith}
use total.Errors.{Result, ok, err, both, Action, continue, ◌>>=◌, relabel, during, pure}

module _ {S A B : Type 0} where
  pub continue-eq-ok :
      (x : Result A × S) (f : A → Action S B) {b : B} {u : S}
      → continue x f ≡ (ok b, u)
      → (a : A) × (t : S) × (x ≡ (ok a, t)) × (f a t ≡ (ok b, u))
  continue-eq-ok (ok a, t) f e = (a, t, refl, e)
  continue-eq-ok (err x, t) f e = ground arith
  continue-eq-ok (both a x, t) f e = ground arith

  -- A chain that succeeds is a first step that succeeds, and a rest that does.
  pub >>=-eq-ok :
      (m : Action S A) (f : A → Action S B) (s : S) {b : B} {u : S}
      → (m >>= f) s ≡ (ok b, u)
      → (a : A) × (t : S) × (m s ≡ (ok a, t)) × (f a t ≡ (ok b, u))
  >>=-eq-ok m f s e = continue-eq-ok (m s) f e

  -- What the rest of a chain ensures of its value, the chain ensures.
  pub >>=-ensures :
      (Q : B → Type 0) (m : Action S A) (f : A → Action S B) (s : S)
      → ((a : A) (t : S) → m s ≡ (ok a, t) → (b : B) (u : S) → f a t ≡ (ok b, u) → Q b)
      → (b : B) (u : S) → (m >>= f) s ≡ (ok b, u)
      → Q b
  >>=-ensures Q m f s h b u e = let (a, t, first, rest) = >>=-eq-ok m f s e in h a t first b u rest

module _ {S A : Type 0} where
  pub relabel-eq-ok :
      (label : String) (x : Result A × S) {a : A} {t : S}
      → relabel label x ≡ (ok a, t)
      → x ≡ (ok a, t)
  relabel-eq-ok label (ok a, t) e = e
  relabel-eq-ok label (err x, t) e = ground arith
  relabel-eq-ok label (both a x, t) e = ground arith

  pub during-eq-ok :
      (label : String) (m : Action S A) (s : S) {a : A} {t : S}
      → during label m s ≡ (ok a, t)
      → m s ≡ (ok a, t)
  during-eq-ok label m s e = relabel-eq-ok label (m s) e

  pub pure-eq-ok : {a b : A} {s t : S} → pure {S = S} a s ≡ (ok b, t) → (a ≡ b) × (s ≡ t)
  pure-eq-ok e = ground arith
