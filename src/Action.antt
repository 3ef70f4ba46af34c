-- ===== src/Action.antt =====
-- Code that changes a state and can fail: an error keeps the state that was reached, as a Rust
-- function that returns early by `?` does.
use netavark.Prelude.{List, [], ◌∷◌, Result, ok, err, map_err}
use netavark.Error.{NetavarkError, NetavarkResult}

abbrev pub Action : Type 0 → Type 0 → Type 0
Action S A = S → NetavarkResult A × S

module _ {S : Type 0} where
  abbrev pub pure : {A : Type 0} → A → Action S A
  pure a s = (ok a, s)

  abbrev pub raise : {A : Type 0} → NetavarkError → Action S A
  raise e s = (err e, s)

  infixl 5 ◌>>=◌ ◌>>◌
  abbrev pub ◌>>=◌ : {A B : Type 0} → Action S A → (A → Action S B) → Action S B
  ◌>>=◌ m f s = let (r, s') = m s in elim r [ ok a ↦ f a s' | err e ↦ (err e, s') ]

  abbrev pub ◌>>◌ : {B : Type 0} → Action S Unit → Action S B → Action S B
  m >> k = m >>= λ _. k

  -- A call that reads the state.
  abbrev pub ask : {E A : Type 0} → (E → NetavarkError) → (S → Result E A) → Action S A
  ask f m s = (map_err f (m s), s)

  -- A call that changes the state, its error turned into one of ours.
  abbrev pub change : {E A : Type 0} → (E → NetavarkError) → (S → Result E A × S) → Action S A
  change f m s = let (r, s') = m s in (map_err f r, s')

  abbrev pub lift : {A : Type 0} → NetavarkResult A → Action S A
  lift r s = (r, s)

  -- `for x in xs { f(x)?; }`
  unfoldable pub for_each : {X : Type 0} → (X → Action S Unit) → List X → Action S Unit
  for_each f [] s = (ok tt, s)
  for_each f (x ∷ xs) s =
      let (r, s') = f x s in elim r [ ok _ ↦ for_each f xs s' | err e ↦ (err e, s') ]
