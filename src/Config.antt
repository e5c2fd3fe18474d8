-- ===== src/Config.antt =====
-- internal/config/config.go, and the start of cmd/api/main.go up to the HTTP server.
-- `getenv` is `os.Getenv`, `atoi` `strconv.Atoi` and `parse_duration` `time.ParseDuration`, whose
-- durations are nanoseconds.
pub mod Start
pub mod Tests
use interactive_whatsapp_meo.Base.{
  ℕ, ◌*◌, String, Option, none, some, Error, Result, ok, err, plain, if◌then◌else◌,
}
use interactive_whatsapp_meo.Base.Text.{is_empty, trim_space}
use interactive_whatsapp_meo.Base.Int.{ℤ, pos}

pub record Config : Type 0 where
  pub app_env : String
  pub addr : String
  pub database_url : String
  pub api_key : String
  pub webhook_batch_size : ℤ
  pub webhook_max_attempts : ℤ
  pub webhook_poll_interval : ℤ
  pub webhook_request_timeout : ℤ
  pub pair_code_display_name : String

abbrev pub second : ℕ
second = 1000000000

module _ (getenv : String → String) where
  unfoldable pub get_env : String → String → String
  get_env key fallback =
      let value = trim_space (getenv key) in if is_empty value then fallback else value

  -- A number that is missing or cannot be read is the fallback.
  abbrev pub get_env_parsed : (String → Result ℤ) → String → ℤ → ℤ
  get_env_parsed parse key fallback =
      let raw = trim_space (getenv key) in
      if is_empty raw
      then fallback
      else (elim (parse raw) [ err _ ↦ fallback | ok parsed ↦ parsed ])

  module _ (atoi parse_duration : String → Result ℤ) where
    unfoldable pub get_env_int : String → ℤ → ℤ
    get_env_int key fallback = get_env_parsed atoi key fallback

    unfoldable pub get_env_duration : String → ℤ → ℤ
    get_env_duration key fallback = get_env_parsed parse_duration key fallback

    unfoldable pub load : Result Config
    unfolding get_env get_env_int get_env_duration
    load =
        let cfg : Config = record {
          app_env = get_env "APP_ENV" "development";
          addr = get_env "ADDR" ":3000";
          database_url = trim_space (getenv "DATABASE_URL");
          api_key = get_env "API_KEY" "local-dev-api-key";
          webhook_batch_size = get_env_int "WEBHOOK_BATCH_SIZE" (pos 25);
          webhook_max_attempts = get_env_int "WEBHOOK_MAX_ATTEMPTS" (pos 5);
          webhook_poll_interval = get_env_duration "WEBHOOK_POLL_INTERVAL" (pos (2 * second));
          webhook_request_timeout = get_env_duration "WEBHOOK_REQUEST_TIMEOUT" (pos (10 * second));
          pair_code_display_name = get_env "PAIR_CODE_DISPLAY_NAME" "InteractiveWhatsMeow";
        } in
        if is_empty cfg.database_url then err (plain "DATABASE_URL is required") else ok cfg
