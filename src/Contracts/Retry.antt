-- ===== src/Contracts/Retry.antt =====
-- The route of a message through the retry queues (packages/contracts/src/topology/rabbitmq.ts).
use logistics_order_fulfillm.Prelude.{
  ℕ, zero, suc, ◌<◌, String, Bool, true, false, ◌||◌, Option, none, some, List, [], ◌∷◌, ◌++◌, ◌==◌,
  ap, length, length-append, get_elem?, ◌≡◌, ◌∙◌, sym, refl, arith, eq_refl, All, if◌then◌else◌,
}
use mathlib.Core.List.{append_assoc}
use logistics_order_fulfillm.Contracts.Topology.{
  RetryableQueueConfig, XDeathEntry, has, is_passage, passages, get_next_retry_target,
}

names : Option String → String → Bool
names none q = false
names (some r) q = r == q

-- The header has an entry for this queue.
unfoldable pub mentions : List XDeathEntry → String → Bool
unfolding names
mentions [] q = false
mentions (d ∷ ds) q = names d.queue q || mentions ds q

abbrev pub Distinct : List String → Type 0
Distinct [] = Unit
Distinct (q ∷ qs) = All (λ r. (q == r) ≡ false) qs × Distinct qs

-- What the topology registry promises of its names.
pub record IsRetryConfig (config : RetryableQueueConfig) : Type 0 where
  pub named : All (λ q. ((q == "") ≡ false) × ((q == config.dlq) ≡ false)) config.retry_queues
  pub distinct : Distinct config.retry_queues

-- What the broker documents of `x-death`: a message that dies in a queue for the first time has the
-- entries that it had, and one for this queue.
abbrev pub RecordsDeaths : (String → List XDeathEntry → List XDeathEntry) → Type 0
RecordsDeaths expire =
    (q : String) (deaths : List XDeathEntry)
    → mentions deaths q ≡ false
    → expire q deaths ≡ record { queue = some q } ∷ deaths

module _ (expire : String → List XDeathEntry → List XDeathEntry)
    (config : RetryableQueueConfig) where
  -- The queues that a message is published to if its handling fails each time, from the `x-death`
  -- header that it comes with: a retry queue sends it back once its TTL is over, the DLQ keeps it.
  unfoldable pub trail : ℕ → List XDeathEntry → List String
  trail zero deaths = []
  trail (suc fuel) deaths =
      let target = get_next_retry_target (some deaths) config in
      let later = trail fuel (expire target deaths) in
      if target == config.dlq then target ∷ [] else target ∷ later

  get_elem?-middle :
      (done rest : List String) (q : String) → get_elem? (done ++ q ∷ rest) (length done) ≡ some q
  get_elem?-middle [] rest q = refl
  get_elem?-middle (d ∷ done) rest q = get_elem?-middle done rest q

  get_elem?-length : (done : List String) → get_elem? done (length done) ≡ none
  get_elem?-length [] = refl
  get_elem?-length (d ∷ done) = get_elem?-length done

  has-middle : (done rest : List String) (q : String) → has (done ++ q ∷ rest) q ≡ true
  unfolding has
  has-middle [] rest q = ground (arith, eq_refl q)
  has-middle (d ∷ done) rest q = ground (arith, has-middle done rest q)

  target-middle :
      (deaths : List XDeathEntry) (done rest : List String) (q : String)
      → config.retry_queues ≡ done ++ q ∷ rest
      → passages config.retry_queues deaths ≡ length done
      → get_next_retry_target (some deaths) config ≡ q
  unfolding get_next_retry_target
  target-middle deaths done rest q e p = rw (p, e, get_elem?-middle done rest q)

  target-end :
      (deaths : List XDeathEntry)
      → passages config.retry_queues deaths ≡ length config.retry_queues
      → get_next_retry_target (some deaths) config ≡ config.dlq
  unfolding get_next_retry_target
  target-end deaths p = rw (p, get_elem?-length config.retry_queues)

  passages-record :
      (deaths : List XDeathEntry) (q : String)
      → (q == "") ≡ false
      → has config.retry_queues q ≡ true
      → passages config.retry_queues (record { queue = some q } ∷ deaths)
        ≡ suc (passages config.retry_queues deaths)
  unfolding passages is_passage
  passages-record deaths q e h = ground arith

  mentions-record :
      (deaths : List XDeathEntry) (q : String) (rs : List String)
      → All (λ r. (q == r) ≡ false) rs
      → All (λ r. mentions deaths r ≡ false) rs
      → All (λ r. mentions (record { queue = some q } ∷ deaths) r ≡ false) rs
  unfolding mentions
  mentions-record deaths q [] d m = tt
  mentions-record deaths q (r ∷ rs) d m = (ground arith, mentions-record deaths q rs d.1 m.1)

  trail_rest :
      (broker : RecordsDeaths expire)
      → (rest done : List String) (deaths : List XDeathEntry) (fuel : ℕ)
      → config.retry_queues ≡ done ++ rest
      → passages config.retry_queues deaths ≡ length done
      → All (λ q. mentions deaths q ≡ false) rest
      → All (λ q. ((q == "") ≡ false) × ((q == config.dlq) ≡ false)) rest
      → Distinct rest
      → length rest < fuel
      → trail fuel deaths ≡ rest ++ config.dlq ∷ []
  unfolding trail
  trail_rest broker rest done deaths zero e p m n d f = absurd (omega arith)
  trail_rest broker [] done deaths (suc fuel) e p m n d f =
      rw (target-end deaths (omega (arith, ap length e, length-append done [])))
        (ground (arith, eq_refl config.dlq))
  trail_rest broker (q ∷ rest) done deaths (suc fuel) e p m n d f =
      rw (target-middle deaths done rest q e p, n.0.1)
        (ap (λ l. q ∷ l)
          (rw (broker q deaths m.0) (
            trail_rest broker rest (done ++ q ∷ []) (record { queue = some q } ∷ deaths) fuel
              (e ∙ sym (append_assoc done (q ∷ []) rest))
              (omega (
                arith,
                passages-record deaths q n.0.0 (rw e (has-middle done rest q)),
                length-append done (q ∷ []),
              ))
              (mentions-record deaths q rest d.0 m.1) n.1 d.1 (omega arith))))

  nothing_mentioned : (rs : List String) → All (λ q. mentions [] q ≡ false) rs
  unfolding mentions
  nothing_mentioned [] = tt
  nothing_mentioned (r ∷ rs) = (refl, nothing_mentioned rs)

  -- With a broker that records each first death in `x-death`, and retry queues that are named,
  -- distinct and not the DLQ, a message whose handling always fails visits every retry queue once,
  -- in order, and then the DLQ, where it stays; fuel above the number of retry queues is enough.
  pub trail_lem :
      (broker : RecordsDeaths expire) (ok : IsRetryConfig config) (fuel : ℕ)
      → length config.retry_queues < fuel
      → trail fuel [] ≡ config.retry_queues ++ config.dlq ∷ []
  trail_lem broker ok fuel f =
      trail_rest broker config.retry_queues [] [] fuel refl (unfold passages in refl)
        (nothing_mentioned config.retry_queues) ok.named ok.distinct f
