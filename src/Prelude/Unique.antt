-- ===== src/Prelude/Unique.antt =====
-- A table with a unique constraint on the pair of an order and a status, whose inserts say
-- ON CONFLICT DO NOTHING.
use Prim.Native.String.{String}
use mathlib.Core.Path.{◌≡◌, refl, sym, ◌∙◌}
use mathlib.Core.Bool.{Bool, true, false, ◌&&◌, ◌||◌, not}
use mathlib.Core.Logic.{inl, inr}
use mathlib.Core.List.{List, [], ◌∷◌, ◌++◌, append_assoc, append-nil}
use native.Mathlib.Omega.{arith}
use text.Mathlib.Text.{◌==◌}
use text.Mathlib.TextEquality.{eq_iff}
use text.Mathlib.TextPositions.{eq_refl}
use logistics_order_fulfillm.Prelude.Tests.{if◌then◌else◌, Bool-cases}
use logistics_order_fulfillm.Prelude.Lists.{all}

module _ {R : Type 0} (order status : R → String) where
  abbrev pub same_key : R → R → Bool
  same_key a b = (order a == order b) && (status a == status b)

  unfoldable pub holds : R → List R → Bool
  holds r [] = false
  holds r (q ∷ rows) = same_key q r || holds r rows

  unfoldable pub insert_or_ignore : R → List R → List R
  unfolding holds
  insert_or_ignore r rows = if holds r rows then rows else rows ++ r ∷ []

  abbrev pub insert_all : List R → List R → List R
  insert_all [] rows = rows
  insert_all (r ∷ rs) rows = insert_all rs (insert_or_ignore r rows)

  -- No two rows have one key.
  abbrev pub are_unique : List R → Bool
  are_unique [] = true
  are_unique (r ∷ rows) = not (holds r rows) && are_unique rows

  pub holds-append : (r : R) (xs ys : List R) → holds r (xs ++ ys) ≡ (holds r xs || holds r ys)
  unfolding holds
  holds-append r [] ys = refl
  holds-append r (x ∷ xs) ys = ground (arith, holds-append r xs ys)

  same_key_comm : (a b : R) → same_key a b ≡ same_key b a
  same_key_comm a b = ground (
    arith,
    eq_iff (order a) (order b),
    eq_iff (order b) (order a),
    eq_iff (status a) (status b),
    eq_iff (status b) (status a),
  )

  are_unique-append :
      (xs : List R) (r : R)
      → holds r xs ≡ false
      → are_unique xs ≡ true
      → are_unique (xs ++ r ∷ []) ≡ true
  unfolding holds
  are_unique-append [] r h u = refl
  are_unique-append (x ∷ xs) r h u =
      ground (arith, are_unique-append xs r, holds-append x xs (r ∷ []), same_key_comm x r)

  pub are_unique-insert :
      (r : R) (rows : List R) → are_unique rows ≡ true → are_unique (insert_or_ignore r rows) ≡ true
  unfolding insert_or_ignore
  are_unique-insert r rows u = ground (arith, are_unique-append rows r)

  pub holds_self : (r : R) → same_key r r ≡ true
  holds_self r = ground (arith, eq_refl (order r), eq_refl (status r))

  holds-insert :
      (q r : R) (rows : List R) → holds q rows ≡ true → holds q (insert_or_ignore r rows) ≡ true
  unfolding insert_or_ignore
  holds-insert q r rows h = ground (arith, holds-append q rows (r ∷ []))

  inserted : (r : R) (rows : List R) → holds r (insert_or_ignore r rows) ≡ true
  unfolding insert_or_ignore holds
  inserted r rows = ground (arith, holds-append r rows (r ∷ []), holds_self r)

  holds-same : (q r : R) (rows : List R) → same_key r q ≡ true → holds r rows ≡ holds q rows
  unfolding holds
  holds-same q r [] h = refl
  holds-same q r (x ∷ rows) h =
      ground
        (arith, holds-same q r rows h, eq_iff (order r) (order q), eq_iff (status r) (status q))

  -- What is there stays there, and what was inserted is there.
  pub holds-insert_all :
      (q : R) (rs rows : List R)
      → (holds q rs || holds q rows) ≡ true
      → holds q (insert_all rs rows) ≡ true
  unfolding holds
  holds-insert_all q [] rows h = h
  holds-insert_all q (r ∷ rs) rows h = elim (Bool-cases (same_key r q)) [
    | inl same ↦
        holds-insert_all q rs (insert_or_ignore r rows)
          (ground (arith, inserted r rows, holds-same q r (insert_or_ignore r rows) same))
    | inr other ↦
        holds-insert_all q rs (insert_or_ignore r rows) (ground (arith, holds-insert q r rows))
  ]

  -- What is there is not inserted again.
  pub insert_all-again :
      (rs rows : List R) → all (λ r. holds r rows) rs ≡ true → insert_all rs rows ≡ rows
  unfolding insert_or_ignore
  insert_all-again [] rows h = refl
  insert_all-again (r ∷ rs) rows h = ground (arith, insert_all-again rs rows)

  are_unique-middle :
      (rows rs : List R) (r : R) → are_unique (rows ++ r ∷ rs) ≡ true → holds r rows ≡ false
  unfolding holds
  are_unique-middle [] rs r u = refl
  are_unique-middle (x ∷ rows) rs r u =
      ground (arith, are_unique-middle rows rs r, holds-append x rows (r ∷ rs), same_key_comm x r)

  -- New and different keys are all kept, in their order.
  pub insert_all-fresh :
      (rs rows : List R) → are_unique (rows ++ rs) ≡ true → insert_all rs rows ≡ rows ++ rs
  unfolding insert_or_ignore
  insert_all-fresh [] rows u = sym (append-nil rows)
  insert_all-fresh (r ∷ rs) rows u = rw (are_unique-middle rows rs r u) (
      insert_all-fresh rs (rows ++ r ∷ []) (rw (append_assoc rows (r ∷ []) rs) u)
      ∙ append_assoc rows (r ∷ []) rs)
