-- ===== src/Config/Env.antt =====
-- src/common/config/env.validation.ts of the five services in TypeScript, and where their modules
-- read what it validates.
use logistics_order_fulfillm.Prelude.{
  Bool, List, Option, Result, String, [], err, false, keep, none, not, ok, some, ◌<>◌, ◌==◌, ◌∷◌,
}

-- The environment: a variable is a text, or not set.
abbrev pub Env : Type 0
Env = String → Option String

-- `!!config[key]`: a variable that is not set is falsy, and so is the empty text.
unfoldable pub is_set : Option String → Bool
is_set none = false
is_set (some value) = not (value == "")

unfoldable pub missing : List String → Env → List String
missing required config = keep (λ key. not (is_set (config key))) required

join_comma : String → List String → String
join_comma key [] = key
join_comma key (next ∷ keys) = key <> ", " <> join_comma next keys

or_missing : Env → List String → Result String Env
unfolding join_comma
or_missing config [] = ok config
or_missing config (key ∷ keys) =
    err ("Missing required environment variables: " <> join_comma key keys)

-- `validateEnv`, over the variables that a service requires.
unfoldable pub validate_env : List String → Env → Result String Env
unfolding or_missing
validate_env required config = or_missing config (missing required config)

unfoldable pub order_api_env : Env → Result String Env
order_api_env = validate_env ("DATABASE_URL" ∷ "REDIS_URL" ∷ "RABBITMQ_URL" ∷ "KAFKA_BROKERS" ∷ [])

unfoldable pub inventory_env : Env → Result String Env
inventory_env = validate_env ("RABBITMQ_URL" ∷ "DATABASE_URL" ∷ "KAFKA_BROKERS" ∷ [])

unfoldable pub notification_env : Env → Result String Env
notification_env = validate_env ("RABBITMQ_URL" ∷ "DATABASE_URL" ∷ [])

unfoldable pub audit_env : Env → Result String Env
audit_env = validate_env ("DATABASE_URL" ∷ "KAFKA_BROKERS" ∷ [])

unfoldable pub analytics_env : Env → Result String Env
analytics_env = validate_env ("DATABASE_URL" ∷ "KAFKA_BROKERS" ∷ [])

-- `config.get<string>('DATABASE_URL')`, for TypeORM
unfoldable pub database_url : Env → Option String
database_url config = config "DATABASE_URL"

-- `config.get<string>('REDIS_URL')!`, for BullMQ
unfoldable pub redis_url : Env → Option String
redis_url config = config "REDIS_URL"

-- `config.get<string>('RABBITMQ_URL')!`, for the connection to RabbitMQ
unfoldable pub rabbitmq_url : Env → Option String
rabbitmq_url config = config "RABBITMQ_URL"

-- `config.get<string>('KAFKA_BROKERS')`, for the Kafka client
unfoldable pub kafka_brokers : Env → Option String
kafka_brokers config = config "KAFKA_BROKERS"

pub data Service : Type 0 where
  order_api inventory notification audit analytics : Service

-- What a service starts with.
abbrev pub configured : Service → Env → Result String Env
configured order_api = order_api_env
configured inventory = inventory_env
configured notification = notification_env
configured audit = audit_env
configured analytics = analytics_env

-- What its modules read.
abbrev pub reads : Service → Env → List (Option String)
reads order_api config =
    database_url config ∷ redis_url config ∷ rabbitmq_url config ∷ kafka_brokers config ∷ []
reads inventory config = database_url config ∷ rabbitmq_url config ∷ kafka_brokers config ∷ []
reads notification config = database_url config ∷ rabbitmq_url config ∷ []
reads audit config = database_url config ∷ kafka_brokers config ∷ []
reads analytics config = database_url config ∷ kafka_brokers config ∷ []
