-- ===== src/Composition/Rows.antt =====
-- Which rows the outbox holds: each has an id of its own, and one that is stamped as published was
-- handed to a broker (apps/order-api/src/jobs/outbox-poller.service.ts).
use logistics_order_fulfillm.Composition.World.{IsAmong}
use logistics_order_fulfillm.Composition.Batch.{All-mark}
use logistics_order_fulfillm.Prelude.{
  ℕ, String, ◌≡◌, ◌<◌, ◌+◌, refl, false, none, List, [], ◌∷◌, ◌++◌, All, arith, true,
}
use mathlib.Core.List.{append_assoc}
use logistics_order_fulfillm.Prelude.Everywhere.{All-append, All-imp}
use logistics_order_fulfillm.OrderApi.Entities.{Platform, OutboxEntry, OutboxChannel, Payload}
use logistics_order_fulfillm.OrderApi.Store.{Db, State, Ambient, push_outbox, with_order, with_row}
use logistics_order_fulfillm.OrderApi.Poller.{Message, message, is_pending, mark_published}
use logistics_order_fulfillm.OrderApi.System.{Request, perform, perform-keeps}
use logistics_order_fulfillm.OrderApi.Writes.{placed_db-keeps, moved_db-keeps, is_sound}

module _ {N : Type 0} where
  pub IsAmong-more :
      (m n : Message N) (sent : List (Message N)) → IsAmong m sent → IsAmong m (sent ++ n ∷ [])
  IsAmong-more m n sent (before, after, e) =
      (before, after ++ n ∷ [], rw e (append_assoc before (m ∷ after) (n ∷ [])))

  -- The entry has an id of the sequence, and every row with its id stands for its message.
  abbrev pub Listed : ℕ → List (OutboxEntry N) → OutboxEntry N → Type 0
  Listed next outbox e = (e.id < next) × All (λ r. r.id ≡ e.id → message r ≡ message e) outbox

  abbrev pub Stamped : List (Message N) → OutboxEntry N → Type 0
  Stamped sent r = is_pending r ≡ false → IsAmong (message r) sent

  pub record Kept (batch : List (OutboxEntry N)) (sent : List (Message N)) (db : Db N)
      : Type 0 where
    pub listed : All (Listed db.next_outbox_id db.outbox) db.outbox
    pub queued : All (Listed db.next_outbox_id db.outbox) batch
    pub stamped : All (Stamped sent) db.outbox

  Listed-push :
      (next : ℕ) (outbox : List (OutboxEntry N)) (row e : OutboxEntry N)
      → row.id ≡ next
      → Listed next outbox e
      → Listed (next + 1) (outbox ++ row ∷ []) e
  Listed-push next outbox row e fresh (below, rows) = (
    omega arith,
    All-append (λ r. r.id ≡ e.id → message r ≡ message e) outbox (row ∷ []) rows
        ((λ same. absurd (omega arith)), tt),
  )

  Listed-new :
      (next : ℕ) (outbox : List (OutboxEntry N)) (row : OutboxEntry N)
      → row.id ≡ next
      → All (Listed next outbox) outbox
      → Listed (next + 1) (outbox ++ row ∷ []) row
  Listed-new next outbox row fresh listed = (
    omega arith,
    All-append (λ r. r.id ≡ row.id → message r ≡ message row) outbox (row ∷ [])
        (All-imp (Listed next outbox) (λ r. r.id ≡ row.id → message r ≡ message row) outbox
          (λ r l same. absurd (omega (arith, l.0))) listed)
        ((λ same. refl), tt),
  )

  module _ (batch : List (OutboxEntry N)) (sent : List (Message N)) where
    Kept-push :
        (now : ℕ) (channel : OutboxChannel) (key aggregate type : String) (p : Payload N)
        (db : Db N)
        → Kept batch sent db
        → Kept batch sent (push_outbox now channel key aggregate type p db)
    unfolding push_outbox
    Kept-push now channel key aggregate type p db k =
        let row : OutboxEntry N = record {
          id = db.next_outbox_id;
          channel = channel;
          routing_key = key;
          aggregate_type = "order";
          aggregate_id = aggregate;
          event_type = type;
          payload = p;
          created_at = now;
          published_at = none;
        } in
        let more = Listed-push db.next_outbox_id db.outbox row in
        record {
          listed =
              All-append _ db.outbox (row ∷ []) (All-imp _ _ db.outbox (λ e. more e refl) k.listed)
                (Listed-new db.next_outbox_id db.outbox row refl k.listed, tt);
          queued = All-imp _ _ batch (λ e. more e refl) k.queued;
          stamped =
              All-append (Stamped sent) db.outbox (row ∷ []) k.stamped
                ((λ pending. unfold is_pending in absurd (ground arith)), tt);
        }

  module _ (pf : Platform N) where
    pub Kept-perform :
        (batch : List (OutboxEntry N)) (sent : List (Message N)) (r : Request N) (amb : Ambient)
        (s : State N)
        → Kept batch sent s.db
        → Kept batch sent (perform pf r amb s).db
    unfolding with_order with_row
    Kept-perform batch sent r amb s k =
        let push =
          λ (now : ℕ) (channel : OutboxChannel) (key aggregate type : String) (p : Payload N)
              (db : Db N) (sound : is_sound pf channel key p ≡ true).
            Kept-push batch sent now channel key aggregate type p db in
        perform-keeps pf (Kept batch sent)
          (λ dto amb db free good k.
            placed_db-keeps pf (Kept batch sent) push dto amb db good
              (record { listed = k.listed; queued = k.queued; stamped = k.stamped }))
          (λ j to amb row db found legal good k.
            moved_db-keeps pf (Kept batch sent) push to amb row db good
              (record { listed = k.listed; queued = k.queued; stamped = k.stamped }))
          r amb s k

  module _ (next : ℕ) (outbox : List (OutboxEntry N)) (now id : ℕ) where
    pub Listed-mark :
        (d : OutboxEntry N) → Listed next outbox d → Listed next (mark_published now id outbox) d
    unfolding message
    Listed-mark d (below, rows) = (
      below,
      All-mark (λ r. r.id ≡ d.id → message r ≡ message d) (λ r. r.id ≡ d.id → message r ≡ message d)
          now id outbox (λ r h. h) (λ r own h. h) rows,
    )

    pub mark_published-Listed :
        All (Listed next outbox) outbox
        → All (Listed next (mark_published now id outbox)) (mark_published now id outbox)
    unfolding message
    mark_published-Listed listed =
        All-mark (Listed next outbox) (Listed next (mark_published now id outbox)) now id outbox
          (λ r. Listed-mark r) (λ r own. Listed-mark r) listed
