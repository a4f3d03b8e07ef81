-- ===== src/Sink/Opening.antt =====
-- New of pkg/consumer/sinks/postgresql/postgresql.go, with its configuration and its schema.
use flowctl_sdk.Base.{ℕ, ◌+◌, Option, none, some, String, ◌<>◌}
use flowctl_sdk.Errors.{Error, wrapped}

pub record Config : Type 0 where
  pub host : String
  pub port : ℕ
  pub database : String
  pub user : String
  pub password : String
  pub ssl_mode : String
  pub max_open_conns : ℕ
  pub max_idle_conns : ℕ
  pub connect_timeout : ℕ

-- The connection string; `decimal` is the verb %d.
unfoldable pub conn_str : (ℕ → String) → Config → String
conn_str decimal c =
    "host="
    <> c.host
    <> " port="
    <> decimal c.port
    <> " dbname="
    <> c.database
    <> " user="
    <> c.user
    <> " password="
    <> c.password
    <> " sslmode="
    <> c.ssl_mode
    <> " connect_timeout="
    <> decimal c.connect_timeout

-- New: the answers of sql.Open for the connection string, of PingContext and of Exec for the schema.
-- `handles` counts the open database handles.
unfoldable pub new_sink :
    (ℕ → String)
    → (String → Option Error)
    → Option Error
    → Option Error
    → Config
    → ℕ
    → ℕ × Option Error
unfolding conn_str
new_sink decimal open_db ping schema c handles = elim (open_db (conn_str decimal c)) [
  | some x ↦ (handles, some (wrapped "failed to connect to PostgreSQL" x))
  | none ↦ elim ping [
    | some x ↦ (handles + 1, some (wrapped "failed to ping PostgreSQL" x))
    | none ↦ elim schema [
      | some x ↦ (
        handles + 1,
        some (wrapped "failed to initialize schema" (wrapped "failed to create tables" x)),
      )
      | none ↦ (handles + 1, none)
    ]
  ]
]
