-- ===== src/Rabbit/Declared.antt =====
-- Which queues the services declare, against what their consumers rely on
-- (src/messaging/rabbitmq.module.ts of apps/order-api, apps/inventory-service and
-- apps/notification-service, and packages/contracts/src/topology/rabbitmq.ts).
use Prim.Native.Nat.{zero}
use logistics_order_fulfillm.Prelude.{
  ℕ, suc, ◌≡◌, refl, String, Option, none, some, List, [], ◌∷◌, ◌++◌, All, arith, ◌⊎◌, inl, inr,
  get_elem?, ◌==◌, if◌then◌else◌,
}
use logistics_order_fulfillm.Contracts.Topology.{
  XDeathEntry, QueueTopology, get_next_retry_target, retry_queue_names, passages, or_dlq,
  x_death_or_empty,
}
use logistics_order_fulfillm.Rabbit.Setup.{
  QueueArguments, Command, assert_exchange, assert_queue, bind_queue, no_arguments, retry_arguments,
  assert_retry_queues, assert_topology, order_api_setup, inventory_setup, notification_setup,
  Service, order_api, inventory, notification, setup, consumed,
}

-- The queue is asserted with these arguments.
pub data IsAsserted (q : String) (a : QueueArguments) : List Command → Type 0 where
  now : {rest : List Command} → IsAsserted q a (assert_queue q a ∷ rest)
  after : {c : Command} {rest : List Command} → IsAsserted q a rest → IsAsserted q a (c ∷ rest)

-- A queue that holds a message back for one of the stages, and then returns it to `main_queue`.
abbrev pub IsStage : String → String → List Command → Type 0
IsStage main_queue q commands =
    (ms : ℕ) × IsAsserted q (retry_arguments (some ms) main_queue) commands

-- The target after so many passages through the retry queues.
target_at : QueueTopology → ℕ → String
target_at t n = or_dlq (get_elem? t.config.retry_queues n) t.config.dlq

IsReady : Service → String → Type 0
IsReady s target =
    let t = consumed s in
    ((target ≡ t.config.dlq) × IsAsserted target no_arguments (setup s))
    ⊎ IsStage t.queue target (setup s)

target_at-IsReady : (s : Service) (n : ℕ) → IsReady s (target_at (consumed s) n)
unfolding IsReady target_at retry_queue_names assert_topology assert_retry_queues order_api_setup
    inventory_setup notification_setup
target_at-IsReady order_api zero = inr (1000, after (after now))
target_at-IsReady order_api (suc zero) = inr (5000, after (after (after now)))
target_at-IsReady order_api (suc (suc zero)) = inr (15000, after (after (after (after now))))
target_at-IsReady order_api (suc (suc (suc n))) =
    inl (refl, after (after (after (after (after now)))))
target_at-IsReady inventory zero = inr (1000, after (after (after now)))
target_at-IsReady inventory (suc zero) = inr (5000, after (after (after (after now))))
target_at-IsReady inventory (suc (suc zero)) =
    inr (15000, after (after (after (after (after now)))))
target_at-IsReady inventory (suc (suc (suc n))) =
    inl (refl, after (after (after (after (after (after now))))))
target_at-IsReady notification zero = inr (1000, after (after (after now)))
target_at-IsReady notification (suc zero) = inr (5000, after (after (after (after now))))
target_at-IsReady notification (suc (suc zero)) =
    inr (15000, after (after (after (after (after now)))))
target_at-IsReady notification (suc (suc (suc n))) =
    inl (refl, after (after (after (after (after (after now))))))

-- For each of the three services that consume a queue, and any `x-death` header, the target of a
-- failed message is a queue that the service declares: the DLQ, declared without arguments, or a
-- queue that holds the message for some time and then dead-letters it through the default exchange
-- to the queue that the service consumes.
pub setup-retry_target :
    (s : Service) (x_death : Option (List XDeathEntry))
    → let t = consumed s in
      let target = get_next_retry_target x_death t.config in
      ((target ≡ t.config.dlq) × IsAsserted target no_arguments (setup s))
      ⊎ IsStage t.queue target (setup s)
unfolding IsReady target_at get_next_retry_target
setup-retry_target s x_death =
    let names = (consumed s).config.retry_queues in
    target_at-IsReady s (passages names (x_death_or_empty x_death))

first_arguments : String → List Command → Option QueueArguments
first_arguments q [] = none
first_arguments q (assert_exchange name ∷ cs) = first_arguments q cs
first_arguments q (assert_queue name a ∷ cs) = if name == q then some a else first_arguments q cs
first_arguments q (bind_queue queue exchange key ∷ cs) = first_arguments q cs

-- What the services say of a queue, the order API first.
declaration : String → Option QueueArguments
unfolding first_arguments
declaration q = first_arguments q (order_api_setup ++ inventory_setup ++ notification_setup)

AsDeclared : Command → Type 0
AsDeclared (assert_exchange name) = Unit
AsDeclared (assert_queue q a) = declaration q ≡ some a
AsDeclared (bind_queue queue exchange key) = Unit

IsAsserted-AsDeclared :
    (q : String) (a : QueueArguments) (cs : List Command)
    → All AsDeclared cs
    → IsAsserted q a cs
    → declaration q ≡ some a
unfolding AsDeclared
IsAsserted-AsDeclared q a [] h asserted = elim asserted [ ]
IsAsserted-AsDeclared q a (c ∷ cs) h now = h.0
IsAsserted-AsDeclared q a (c ∷ cs) h (after asserted) = IsAsserted-AsDeclared q a cs h.1 asserted

setup-AsDeclared : (s : Service) → All AsDeclared (setup s)
unfolding AsDeclared declaration retry_queue_names assert_retry_queues order_api_setup
    inventory_setup notification_setup
setup-AsDeclared order_api = (tt, (refl, (refl, (refl, (refl, (refl, tt))))))
setup-AsDeclared inventory =
    (tt, (refl, (tt, (refl, (refl, (refl, (refl, (refl, (refl, (refl, (refl, (refl, tt))))))))))))
setup-AsDeclared notification = (tt, (refl, (tt, (refl, (refl, (refl, (refl, tt)))))))

-- Whichever services declare a queue, they declare it with the same arguments.
pub setup-agrees :
    (s s' : Service) (q : String) (a a' : QueueArguments)
    → IsAsserted q a (setup s)
    → IsAsserted q a' (setup s')
    → a ≡ a'
setup-agrees s s' q a a' h h' =
    let declared = IsAsserted-AsDeclared q a (setup s) (setup-AsDeclared s) h in
    let declared' = IsAsserted-AsDeclared q a' (setup s') (setup-AsDeclared s') h' in ground arith
