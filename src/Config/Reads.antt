-- ===== src/Config/Reads.antt =====
-- That no service reads a variable which is not there
-- (src/common/config/env.validation.ts of each service, and the modules that read its variables).
use logistics_order_fulfillm.Prelude.{
  All, Bool-cases, List, List-cases, Option, String, [], arith, false, inl, inr, none, ok, refl,
  some, true, ◌==◌, ◌∷◌, ◌≡◌,
}
use logistics_order_fulfillm.Config.Env.{
  Service, order_api, inventory, notification, audit, analytics, Env, analytics_env, audit_env,
  configured, database_url, inventory_env, is_set, kafka_brokers, missing, notification_env,
  order_api_env, rabbitmq_url, reads, redis_url, validate_env,
}

all_set :
    (required : List String) (config : Env)
    → missing required config ≡ []
    → All (λ key. is_set (config key) ≡ true) required
unfolding missing
all_set [] config h = tt
all_set (key ∷ required) config h = elim (Bool-cases (is_set (config key))) [
  | inl there ↦ (there, all_set required config (ground arith))
  | inr absent ↦ absurd (ground arith)
]

-- A validation that succeeds gives the environment, with all of the variables set.
pub validate_env-ok :
    (required : List String) (config config' : Env)
    → validate_env required config ≡ ok config'
    → (config' ≡ config) × All (λ key. is_set (config key) ≡ true) required
unfolding validate_env
validate_env-ok required config config' h = elim (List-cases (missing required config)) [
  | inl none_missing ↦ (ground arith, all_set required config none_missing)
  | inr (key, keys, some_missing) ↦ absurd (ground arith)
]

-- a non-empty text
abbrev pub IsText : Option String → Type 0
IsText value = (text : String) × (value ≡ some text) × ((text == "") ≡ false)

is_set-IsText : (value : Option String) → is_set value ≡ true → IsText value
unfolding is_set
is_set-IsText none h = absurd (ground arith)
is_set-IsText (some text) h = (text, refl, ground arith)

-- Of each of the five services, and of any environment that its validation accepts, every variable
-- that its modules then read, without a check of their own, is a text and not the empty one.
pub configured-IsText :
    (s : Service) (config config' : Env)
    → configured s config ≡ ok config'
    → All IsText (reads s config')
unfolding order_api_env inventory_env notification_env audit_env analytics_env database_url
    redis_url rabbitmq_url kafka_brokers
configured-IsText order_api config config' h =
    let (same, (database, (redis, (rabbitmq, (kafka, _))))) = validate_env-ok _ config config' h in
    rw same (
      is_set-IsText _ database,
      (is_set-IsText _ redis, (is_set-IsText _ rabbitmq, (is_set-IsText _ kafka, tt))),
    )
configured-IsText inventory config config' h =
    let (same, (rabbitmq, (database, (kafka, _)))) = validate_env-ok _ config config' h in
    rw same (is_set-IsText _ database, (is_set-IsText _ rabbitmq, (is_set-IsText _ kafka, tt)))
configured-IsText notification config config' h =
    let (same, (rabbitmq, (database, _))) = validate_env-ok _ config config' h in
    rw same (is_set-IsText _ database, (is_set-IsText _ rabbitmq, tt))
configured-IsText audit config config' h =
    let (same, (database, (kafka, _))) = validate_env-ok _ config config' h in
    rw same (is_set-IsText _ database, (is_set-IsText _ kafka, tt))
configured-IsText analytics config config' h =
    let (same, (database, (kafka, _))) = validate_env-ok _ config config' h in
    rw same (is_set-IsText _ database, (is_set-IsText _ kafka, tt))
