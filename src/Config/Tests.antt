-- ===== src/Config/Tests.antt =====
-- A configuration that loads.
use interactive_whatsapp_meo.Base.{String, err, plain, Result, str_eq, if◌then◌else◌}
use interactive_whatsapp_meo.Base.Int.{ℤ, pos}
use interactive_whatsapp_meo.Base.Text.{trim_space}
use interactive_whatsapp_meo.Sessions.Login.{or_else}
use interactive_whatsapp_meo.Config.{Config, load}

abbrev pub env : String → String
env name =
    if str_eq name "DATABASE_URL"
    then "postgres://db"
    else if str_eq name "API_KEY"
    then " k "
    else ""

abbrev pub unread : String → Result ℤ
unread text = err (plain "invalid syntax")

abbrev no_config : Config
no_config = record {
  app_env = "";
  addr = "";
  database_url = "";
  api_key = "";
  webhook_batch_size = pos 0;
  webhook_max_attempts = pos 0;
  webhook_poll_interval = pos 0;
  webhook_request_timeout = pos 0;
  pair_code_display_name = "";
}

unfoldable pub config : Config
unfolding load trim_space
config = or_else no_config (load env unread unread)
