-- ===== src/Prelude/Table.antt =====
-- A database table whose primary key is a text: the rows in the order of their insertion.
use Prim.Native.String.{String}
use mathlib.Core.Path.{◌≡◌, refl}
use mathlib.Core.Option.{Option, none, some}
use mathlib.Core.List.{List, [], ◌∷◌}
use native.Mathlib.Omega.{arith}
use text.Mathlib.Text.{◌==◌}
use text.Mathlib.TextEquality.{eq_iff}
use logistics_order_fulfillm.Prelude.Tests.{if◌then◌else◌}

module _ {ℓ} {A : Type ℓ} (key : A → String) where
  -- SELECT … WHERE key = k
  unfoldable pub find : String → List A → Option A
  find k [] = none
  find k (a ∷ rows) = if key a == k then some a else find k rows

  -- `save`: UPDATE where the key is there, INSERT otherwise
  unfoldable pub save : A → List A → List A
  save a [] = a ∷ []
  save a (b ∷ rows) = if key b == key a then a ∷ rows else b ∷ save a rows

  pub find-save :
      (a : A) (k : String) (rows : List A)
      → find k (save a rows) ≡ (if key a == k then some a else find k rows)
  unfolding find save
  find-save a k [] = refl
  find-save a k (b ∷ rows) =
      ground (arith, find-save a k rows, eq_iff (key b) (key a), eq_iff (key b) k, eq_iff (key a) k)

  -- A row that is found has the key that was looked for.
  pub key-find : (k : String) (a : A) (rows : List A) → find k rows ≡ some a → key a ≡ k
  unfolding find
  key-find k a [] h = ground arith
  key-find k a (b ∷ rows) h = ground (arith, eq_iff (key b) k, key-find k a rows)
