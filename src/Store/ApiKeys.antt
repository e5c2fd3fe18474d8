-- ===== src/Store/ApiKeys.antt =====
-- internal/store/api_key_repo.go: the table `api_keys`. `hash` is `hashAPIKey`: the digits of the
-- SHA-256 of a key.
pub mod Bootstrap
use interactive_whatsapp_meo.Base.{
  String, Bool, true, false, Option, none, some, List, [], ◌∷◌, ◌++◌, ok, str_eq, is_some,
  if◌then◌else◌,
}
use interactive_whatsapp_meo.Base.Text.{is_empty, trim_space}
use interactive_whatsapp_meo.Store.Models.{ApiKey}
use interactive_whatsapp_meo.Store.Db.{Db, Action, pure, wrapping, sql}
use interactive_whatsapp_meo.Store.Table.{find}

-- `key_hash = $1`
abbrev pub has_hash : String → Db → Bool
has_hash key_hash db = is_some (find (λ (k : ApiKey). str_eq k.key_hash key_hash) db.api_keys)

module _ (hash : String → String) where
  -- The `INSERT`, with `ON CONFLICT (key_hash) DO NOTHING`.
  abbrev pub insert_key : String → Action (Unit {0})
  insert_key key db = if has_hash (hash key) db then (ok tt, db) else (
    ok tt,
    record db { api_keys = db.api_keys ++ record { name = "bootstrap"; key_hash = hash key } ∷ [] },
  )

  unfoldable pub bootstrap : String → Action (Unit {0})
  unfolding sql
  bootstrap given =
      let key = trim_space given in
      if is_empty key then pure tt else wrapping "bootstrap api key" (sql (insert_key key))

  unfoldable pub validate : String → Action Bool
  unfolding sql
  validate key = wrapping "validate api key" (sql (λ db. (ok (has_hash (hash key) db), db)))
