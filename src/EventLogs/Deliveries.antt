-- ===== src/EventLogs/Deliveries.antt =====
-- Deliveries to an event log whose table has a unique constraint
-- (`eachMessage` of apps/audit-service/src/messaging/kafka.consumer.ts and of
-- apps/analytics-service/src/messaging/kafka.consumer.ts).
use logistics_order_fulfillm.Prelude.{
  String, ◌≡◌, refl, subst, true, Option, none, some, List, [], ◌∷◌, ◌++◌, all, arith, Option-cases,
  inl, inr,
}
use mathlib.Core.List.{append_assoc}
use logistics_order_fulfillm.Prelude.Unique.{
  insert_or_ignore, insert_all, are_unique, holds, are_unique-insert, holds-insert_all,
  holds-append, holds_self, insert_all-again,
}

-- The table after a delivery: a thrown error rolls its insert back.
abbrev pub or_old : {A : Type 0} → List A → Option (List A) → List A
or_old rows none = rows
or_old rows (some rows') = rows'

-- Messages that are delivered one after the other.
abbrev pub consume :
    {A : Type 0} → (String → List A → Option (List A)) → List String → List A → List A
consume deliver [] rows = rows
consume deliver (raw ∷ raws) rows = consume deliver raws (or_old rows (deliver raw rows))

abbrev pub with_row : {A : Type 0} → Option A → List A → List A
with_row none rows = rows
with_row (some r) rows = r ∷ rows

-- The rows that the messages stand for, of those that stand for one.
abbrev pub rows_of : {A : Type 0} → (String → Option A) → List String → List A
rows_of row [] = []
rows_of row (raw ∷ raws) = with_row (row raw) (rows_of row raws)

module _ {R : Type 0} (order status : R → String) where
  unfoldable pub insert_some : Option R → List R → List R
  insert_some none rows = rows
  insert_some (some r) rows = insert_or_ignore order status r rows

  module _ (deliver : String → List R → Option (List R)) (row : String → Option R)
      (law : (raw : String) (rows : List R)
        → or_old rows (deliver raw rows) ≡ insert_some (row raw) rows) where
    pub consume_lem :
        (raws : List String) (rows : List R)
        → consume deliver raws rows ≡ insert_all order status (rows_of row raws) rows
    unfolding insert_some
    consume_lem [] rows = refl
    consume_lem (raw ∷ raws) rows = elim (Option-cases (row raw)) [
      | inl skipped ↦ rw (law raw rows, skipped) (consume_lem raws rows)
      | inr (r, kept) ↦
          rw (law raw rows, kept) (consume_lem raws (insert_or_ignore order status r rows))
    ]

  pub insert_all_unique :
      (rs rows : List R)
      → are_unique order status rows ≡ true
      → are_unique order status (insert_all order status rs rows) ≡ true
  insert_all_unique [] rows u = u
  insert_all_unique (r ∷ rs) rows u =
      insert_all_unique rs (insert_or_ignore order status r rows)
        (are_unique-insert order status r rows u)

  all-holds :
      (done rs rows : List R)
      → all (λ r. holds order status r (insert_all order status (done ++ rs) rows)) rs ≡ true
  all-holds done [] rows = refl
  all-holds done (r ∷ rs) rows =
      let rest : all (λ q. holds order status q (insert_all order status (done ++ r ∷ rs) rows)) rs
          ≡ true =
        subst (λ l. all (λ q. holds order status q (insert_all order status l rows)) rs ≡ true)
          (append_assoc done (r ∷ []) rs) (all-holds (done ++ r ∷ []) rs rows) in
      let listed : holds order status r (done ++ r ∷ rs) ≡ true =
        unfold holds in
        ground (arith, holds-append order status r done (r ∷ rs), holds_self order status r) in
      let here = holds-insert_all order status r (done ++ r ∷ rs) rows (ground arith) in
      rw (here, rest)

  pub insert_all_twice :
      (rs rows : List R)
      → let rows' = insert_all order status rs rows in insert_all order status rs rows' ≡ rows'
  insert_all_twice rs rows =
      insert_all-again order status rs (insert_all order status rs rows) (all-holds [] rs rows)
