-- ===== src/Runtime/Env/Apis.antt =====
-- The environments of apps/app-apis/src/env.ts, apps/auth-api/src/env.ts and apps/executor/src/env.ts.
use express_monorepo_bank_te.Base.{ℕ, String, Bool, Option, List}
use express_monorepo_bank_te.Base.Int.{ℤ}
use express_monorepo_bank_te.Runtime.Env.{
  Source, Checked, valid, ◌<*>◌, required, text_or, optional, one_of, list_of, node_envs,
  log_levels, positive, url,
}

pub record AppEnv : Type 0 where
  pub node_env : String
  pub port : ℕ
  pub log_level : String
  pub database_url : String
  pub redis_url : String
  pub auth_jwks_url : String
  pub auth_issuer : String
  pub auth_audience : String
  pub cors_allowed_origins : List String
  pub docs_merge_spec_urls : List String

pub record AuthEnv : Type 0 where
  pub node_env : String
  pub port : ℕ
  pub log_level : String
  pub database_url : String
  pub jwt_private_key_file : Option String
  pub jwt_private_key : Option String
  pub jwt_issuer : String
  pub jwt_audience : String
  pub jwt_ttl_seconds : ℕ
  pub cors_allowed_origins : List String

pub record ExecutorEnv : Type 0 where
  pub node_env : String
  pub port : ℕ
  pub log_level : String
  pub database_url : String
  pub redis_url : String

module _ (integer : String → Option ℤ) (is_url : String → Bool) where
  unfoldable pub load_app : Source → Checked AppEnv
  load_app source =
      valid
        (λ node_env port log_level database_url redis_url auth_jwks_url auth_issuer auth_audience
            cors_allowed_origins docs_merge_spec_urls.
          record {
            node_env = node_env;
            port = port;
            log_level = log_level;
            database_url = database_url;
            redis_url = redis_url;
            auth_jwks_url = auth_jwks_url;
            auth_issuer = auth_issuer;
            auth_audience = auth_audience;
            cors_allowed_origins = cors_allowed_origins;
            docs_merge_spec_urls = docs_merge_spec_urls;
          })
      <*> one_of node_envs source "NODE_ENV" "development"
      <*> positive integer source "PORT" 3000
      <*> one_of log_levels source "LOG_LEVEL" "info"
      <*> required source "DATABASE_URL"
      <*> required source "REDIS_URL"
      <*> url is_url source "AUTH_JWKS_URL"
      <*> text_or source "AUTH_ISSUER" "bank-auth"
      <*> text_or source "AUTH_AUDIENCE" "bank-internal-api"
      <*> list_of source "CORS_ALLOWED_ORIGINS"
      <*> list_of source "DOCS_MERGE_SPEC_URLS"

  unfoldable pub load_auth : Source → Checked AuthEnv
  load_auth source =
      valid
        (λ node_env port log_level database_url jwt_private_key_file jwt_private_key jwt_issuer
            jwt_audience jwt_ttl_seconds cors_allowed_origins.
          record {
            node_env = node_env;
            port = port;
            log_level = log_level;
            database_url = database_url;
            jwt_private_key_file = jwt_private_key_file;
            jwt_private_key = jwt_private_key;
            jwt_issuer = jwt_issuer;
            jwt_audience = jwt_audience;
            jwt_ttl_seconds = jwt_ttl_seconds;
            cors_allowed_origins = cors_allowed_origins;
          })
      <*> one_of node_envs source "NODE_ENV" "development"
      <*> positive integer source "PORT" 3001
      <*> one_of log_levels source "LOG_LEVEL" "info"
      <*> required source "DATABASE_URL"
      <*> optional source "JWT_PRIVATE_KEY_FILE"
      <*> optional source "JWT_PRIVATE_KEY"
      <*> text_or source "JWT_ISSUER" "bank-auth"
      <*> text_or source "JWT_AUDIENCE" "bank-internal-api"
      <*> positive integer source "JWT_TTL_SECONDS" 3600
      <*> list_of source "CORS_ALLOWED_ORIGINS"

  unfoldable pub load_executor : Source → Checked ExecutorEnv
  load_executor source =
      valid (λ node_env port log_level database_url redis_url. record {
        node_env = node_env;
        port = port;
        log_level = log_level;
        database_url = database_url;
        redis_url = redis_url;
      })
      <*> one_of node_envs source "NODE_ENV" "development"
      <*> positive integer source "PORT" 3002
      <*> one_of log_levels source "LOG_LEVEL" "info"
      <*> required source "DATABASE_URL"
      <*> required source "REDIS_URL"
