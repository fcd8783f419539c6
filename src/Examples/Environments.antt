-- ===== src/Examples/Environments.antt =====
-- The environment of the audit service, and one that lacks a variable.
use logistics_order_fulfillm.Prelude.{All, err, if◌then◌else◌, none, refl, some, ◌==◌, ◌≡◌}
use logistics_order_fulfillm.Config.Env.{
  audit, Env, audit_env, is_set, missing, order_api_env, reads, validate_env,
}
use logistics_order_fulfillm.Config.Reads.{IsText, configured-IsText}

abbrev audit_variables : Env
audit_variables key =
    if key == "DATABASE_URL"
    then some "postgres://audit@db/logistics"
    else if key == "KAFKA_BROKERS"
    then some "kafka:9092"
    else none

configured-IsText_example : All IsText (reads audit audit_variables)
unfolding audit_env validate_env missing is_set
configured-IsText_example = configured-IsText audit audit_variables audit_variables refl

-- Without Redis and RabbitMQ the order API does not start.
order_api_refused :
    order_api_env audit_variables
    ≡ err "Missing required environment variables: REDIS_URL, RABBITMQ_URL"
unfolding order_api_env validate_env missing is_set
order_api_refused = refl
