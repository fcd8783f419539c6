-- ===== src/Examples/Runs.antt =====
-- A run of the services together: an order is placed and cancelled, and the poller hands over what
-- was announced.
use logistics_order_fulfillm.Prelude.{◌∙◌}
use Prim.Native.Nat.{zero}
use logistics_order_fulfillm.Prelude.{ℕ, ◌≡◌, refl, true, false, List, [], ◌∷◌, suc}
use logistics_order_fulfillm.Contracts.Status.{cancelled}
use logistics_order_fulfillm.OrderApi.Poller.{delivered, pending_batch}
use logistics_order_fulfillm.OrderApi.Entities.{OutboxEntry}
use logistics_order_fulfillm.OrderApi.System.{place, move, perform}
use logistics_order_fulfillm.Composition.World.{
  World, Reach, here, later, request, tick, publish, publish_one,
}
use logistics_order_fulfillm.Examples.Samples.{platform, now, dto, no_orders, shelf}

abbrev pub idle : World ℕ
idle = record {
  api = no_orders;
  is_polling = false;
  batch = [];
  sent = [];
  inventory = shelf;
  audit = [];
}

-- The first entry of the batch is tried, and is delivered.
unfoldable pub publish_next : List (OutboxEntry ℕ) → World ℕ → World ℕ
publish_next [] w = w
publish_next (entry ∷ rest) w = publish_one 200 (λ e. delivered) entry rest w

unfoldable pub try_next : World ℕ → World ℕ
unfolding publish_next
try_next w = publish_next w.batch w

next-Reach :
    (start w : World ℕ) (batch : List (OutboxEntry ℕ))
    → w.batch ≡ batch
    → Reach platform start w
    → Reach platform start (publish_next batch w)
unfolding publish_next
next-Reach start w [] found run = run
next-Reach start w (entry ∷ rest) found run =
    later run (publish 200 (λ e. delivered) entry rest found)

try_next-Reach : (start w : World ℕ) → Reach platform start w → Reach platform start (try_next w)
unfolding try_next
try_next-Reach start w run = next-Reach start w w.batch refl run

-- One entry of the batch after the other.
unfoldable pub drained : ℕ → World ℕ → World ℕ
drained zero w = w
drained (suc n) w = drained n (try_next w)

drained-Reach :
    (n : ℕ) (start w : World ℕ) → Reach platform start w → Reach platform start (drained n w)
unfolding drained
drained-Reach zero start w run = run
drained-Reach (suc n) start w run = drained-Reach n start (try_next w) (try_next-Reach start w run)

abbrev pub ordered : World ℕ
ordered = record idle { api = perform platform (place dto) now idle.api }

abbrev pub called_off : World ℕ
called_off = record ordered { api = perform platform (move "order-1" cancelled) now ordered.api }

abbrev pub polling : World ℕ
polling = record called_off { is_polling = true; batch = pending_batch called_off.api.outbox }

abbrev pub announced_world : World ℕ
announced_world = drained 5 polling

pub polling-Reach : Reach platform idle polling
polling-Reach =
    later (later (later here (request (place dto) now)) (request (move "order-1" cancelled) now))
      (tick refl)

pub announced-Reach : Reach platform idle announced_world
announced-Reach = drained-Reach 5 idle polling polling-Reach

audit-publish_next :
    (batch : List (OutboxEntry ℕ)) (w : World ℕ) → (publish_next batch w).audit ≡ w.audit
unfolding publish_next publish_one
audit-publish_next [] w = refl
audit-publish_next (entry ∷ rest) w = refl

-- The poller leaves the log as it is.
pub audit-drained : (n : ℕ) (w : World ℕ) → (drained n w).audit ≡ w.audit
unfolding drained try_next
audit-drained zero w = refl
audit-drained (suc n) w = audit-drained n (try_next w) ∙ audit-publish_next w.batch w
