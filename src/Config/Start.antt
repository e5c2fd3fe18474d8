-- ===== src/Config/Start.antt =====
-- The key that `Load` of internal/config/config.go gives, and `Bootstrap` of
-- internal/store/api_key_repo.go, as cmd/api/main.go calls them.
use interactive_whatsapp_meo.Base.{
  String, ◌≡◌, refl, ◌∙◌, ap, sym, true, false, arith, Result, ok, Bool-cases, inl, inr,
}
use interactive_whatsapp_meo.Base.Text.{is_space, is_empty, trim_left, trim_right, trim_space}
use interactive_whatsapp_meo.Base.Int.{ℤ}
use interactive_whatsapp_meo.Store.Db.{Db}
use interactive_whatsapp_meo.Store.ApiKeys.{has_hash, bootstrap}
use interactive_whatsapp_meo.Store.ApiKeys.Bootstrap.{bootstrap-has_hash}
use interactive_whatsapp_meo.Config.{Config, get_env, load}
use text.Mathlib.TextEquality.{eq_iff}
use Prim.Native.Char.{Char}
use Prim.Native.String.{[], ◌∷◌}

-- What starts with something that is not blank stays so.
trim_space-keeps :
    (c : Char) (s : String) → is_space c ≡ false → is_empty (trim_space (c ∷ s)) ≡ false
unfolding trim_space trim_left trim_right
trim_space-keeps c s dark = ground (arith, dark)

-- A text that is not blank is not blank when its ends are trimmed.
trim_right-trim_left :
    (s : String)
    → is_empty (trim_right (trim_left s)) ≡ false
    → is_empty (trim_space (trim_right (trim_left s))) ≡ false
unfolding trim_left trim_right
trim_right-trim_left [] h = absurd (ground (arith, h))
trim_right-trim_left (c ∷ s) h = elim (Bool-cases (is_space c)) [
  | inl blank ↦ rw blank (trim_right-trim_left s (rw blank at h))
  | inr dark ↦ rw (dark, dark) (trim_space-keeps c (trim_right s) dark)
]

trim_space-trim_space :
    (s : String) → is_empty (trim_space s) ≡ false → is_empty (trim_space (trim_space s)) ≡ false
unfolding trim_space
trim_space-trim_space s h = trim_right-trim_left s h

fallback-full : is_empty (trim_space "local-dev-api-key") ≡ false
unfolding trim_space trim_left trim_right is_space
fallback-full = refl

get_env-full :
    (getenv : String → String) (key : String)
    → is_empty (trim_space (get_env getenv key "local-dev-api-key")) ≡ false
unfolding get_env
get_env-full getenv key = elim (Bool-cases (is_empty (trim_space (getenv key)))) [
  | inl blank ↦ rw blank fallback-full
  | inr full ↦ rw full (trim_space-trim_space (getenv key) full)
]

-- A configuration that is loaded has a database and a key that is not blank.
pub load-IsUsable :
    (getenv : String → String) (atoi parse_duration : String → Result ℤ) (cfg : Config)
    → load getenv atoi parse_duration ≡ ok cfg
    → (is_empty cfg.database_url ≡ false) × (is_empty (trim_space cfg.api_key) ≡ false)
unfolding load get_env
load-IsUsable getenv atoi parse_duration cfg h =
    elim (Bool-cases (is_empty (trim_space (getenv "DATABASE_URL")))) [
      | inl blank ↦ absurd (ground (arith, h, blank))
      | inr full ↦ (ground (arith, h, full), ground (arith, h, full, get_env-full getenv "API_KEY"))
    ]

-- Once the configuration is loaded and its key written, the table has the hash of the key, so that
-- `Validate` accepts it: the key is never blank, which `Bootstrap` would skip.
pub load-bootstrap :
    (getenv : String → String) (atoi parse_duration : String → Result ℤ) (cfg : Config)
    (hash : String → String) (db db' : Db)
    → load getenv atoi parse_duration ≡ ok cfg
    → bootstrap hash cfg.api_key db ≡ (ok tt, db')
    → has_hash (hash (trim_space cfg.api_key)) db' ≡ true
load-bootstrap getenv atoi parse_duration cfg hash db db' loaded started =
    let full = (load-IsUsable getenv atoi parse_duration cfg loaded).1 in
    ap (λ o. has_hash (hash (trim_space cfg.api_key)) o.1) (sym started)
    ∙ bootstrap-has_hash hash (hash (trim_space cfg.api_key)) cfg.api_key db full
        (ap (λ o. o.0) started)
    ∙ ground
        (arith, (eq_iff (hash (trim_space cfg.api_key)) (hash (trim_space cfg.api_key))).1 refl)
