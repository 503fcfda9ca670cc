-- ===== src/Prelude/Maps.antt =====
-- Ordered maps of the standard library from texts (`BTreeMap`), as lists in the order of their keys.
use mathlib.Core.Path.{◌≡◌}
use mathlib.Core.Logic.{◌≢◌}
use mathlib.Core.List.{List, [], ◌∷◌}
use mathlib.Core.Option.{Option, none, some}
use native.Mathlib.Omega.{arith}
use ferrum_atlas.Prelude.Tests.{if◌then◌else◌}
use ferrum_atlas.Prelude.Equal.{◌==◌}
use ferrum_atlas.Prelude.Order.{lex_lt}
use ferrum_atlas.Prelude.Text.{Text, text_eq}

module _ {ℓ} {V : Type ℓ} where
  abbrev pub at : Text → List (Text × V) → Option V
  at k [] = none
  at k ((k', v) ∷ m) = if k == k' then some v else at k m

  abbrev pub put : Text → V → List (Text × V) → List (Text × V)
  put k v [] = (k, v) ∷ []
  put k v ((k', v') ∷ m) =
      let rest = put k v m in
      if k == k' then (k, v) ∷ m else if lex_lt k k' then (k, v) ∷ (k', v') ∷ m else (k', v') ∷ rest

  pub at-put : (k : Text) (v : V) (m : List (Text × V)) → at k (put k v m) ≡ some v
  at-put k v [] = ground arith
  at-put k v ((k', v') ∷ m) = ground (arith, at-put k v m)

  pub at-put_other : (q k : Text) (v : V) (m : List (Text × V)) → q ≢ k → at q (put k v m) ≡ at q m
  at-put_other q k v [] h = ground arith
  at-put_other q k v ((k', v') ∷ m) h = ground (arith, at-put_other q k v m h)
