-- ===== src/Start/Tests.antt =====
-- A process that starts, and its theorem there.
use interactive_whatsapp_meo.Base.{[], ◌∷◌, ◌≡◌, refl, none}
use interactive_whatsapp_meo.Base.Text.{trim_space, trim_left, trim_right, is_space}
use interactive_whatsapp_meo.Store.Db.{empty_db, take_turn, sql}
use interactive_whatsapp_meo.Store.ApiKeys.{bootstrap}
use interactive_whatsapp_meo.Store.Sessions
use interactive_whatsapp_meo.Sessions.World.{World, ◌>>=◌}
use interactive_whatsapp_meo.Sessions.Login.{attach_existing_runtime, attach_runtime}
use interactive_whatsapp_meo.Sessions.Restart.{rehydrate, rehydrate_all}
use interactive_whatsapp_meo.Sessions.Live.Steps.{started}
use interactive_whatsapp_meo.Sessions.Tests.{jids, ana}
use interactive_whatsapp_meo.Http.Routes
use interactive_whatsapp_meo.Http.Routes.{handle, serve}
use interactive_whatsapp_meo.Http.Guards.{asked}
use interactive_whatsapp_meo.Http.Tests.{server, request}
use interactive_whatsapp_meo.Config.{load, get_env}
use interactive_whatsapp_meo.Config.Tests.{env, unread, config}
use interactive_whatsapp_meo.Start.{Machine, start}
use interactive_whatsapp_meo.Start.Serves.{start-serve}

abbrev machine : Machine
machine = record {
  getenv = env;
  atoi = unread;
  parse_duration = unread;
  opening = none;
  migrating = none;
  container = none;
}

-- The database has a session from an earlier run.
abbrev before_start : World jids
before_start = started (record empty_db { sessions = ana ∷ [] })

abbrev running : World jids
unfolding start
running = (start machine server before_start).1

start-serve_example :
    serve server Routes.get_sessions request running
    ≡ handle server Routes.get_sessions request (asked server running)
unfolding running config start load get_env bootstrap rehydrate rehydrate_all
    attach_existing_runtime attach_runtime Sessions.list sql take_turn trim_space trim_left
    trim_right is_space ◌>>=◌
start-serve_example =
    start-serve machine server config Routes.get_sessions request before_start running refl refl
      refl refl
