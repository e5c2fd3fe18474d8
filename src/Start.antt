-- ===== src/Start.antt =====
-- cmd/api/main.go: the steps of `main` up to the HTTP server; `Start` of the webhook
-- service is the launch of its worker. A failure ends the process.
pub mod Serves
mod Tests
use interactive_whatsapp_meo.Base.{String, Option, none, some, Error, Result, ok, err}
use interactive_whatsapp_meo.Base.Int.{ℤ}
use interactive_whatsapp_meo.Store.ApiKeys.{bootstrap}
use interactive_whatsapp_meo.Whatsapp.Jid.{JidLib}
use interactive_whatsapp_meo.Sessions.World.{
  World, Method, webhook_worker, pure, on_db, lift, ◌>>=◌, ◌>>◌,
}
use interactive_whatsapp_meo.Sessions.Login.{launch}
use interactive_whatsapp_meo.Sessions.Restart.{rehydrate}
use interactive_whatsapp_meo.Http.Types.{Server}
use interactive_whatsapp_meo.Config.{Config, load}

-- What the process finds around it: its environment with the parsers of its values, and how
-- `store.Open`, `store.Migrate` and `session.NewWAContainer` fail.
pub record Machine : Type 0 where
  pub getenv : String → String
  pub atoi : String → Result ℤ
  pub parse_duration : String → Result ℤ
  pub opening : Option Error
  pub migrating : Option Error
  pub container : Option Error

abbrev pub unless : Option Error → Result (Unit {0})
unless none = ok tt
unless (some e) = err e

unfoldable pub start : {lib : JidLib} → Machine → Server lib → Method lib Config
start machine server = do
  cfg ← lift (load machine.getenv machine.atoi machine.parse_duration)
  lift (unless machine.opening)
  lift (unless machine.migrating)
  on_db (bootstrap server.hash cfg.api_key)
  launch webhook_worker
  lift (unless machine.container)
  rehydrate server.client
  pure cfg
