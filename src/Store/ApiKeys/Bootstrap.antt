-- ===== src/Store/ApiKeys/Bootstrap.antt =====
-- `Bootstrap` and `Validate` of internal/store/api_key_repo.go together.
use interactive_whatsapp_meo.Base.{
  String, ◌≡◌, refl, ◌∙◌, ap, sym, true, false, ◌||◌, none, List, [], ◌∷◌, ◌++◌, arith, ok, str_eq,
  Bool-cases, str_eq_of_true, Option-cases, inl, inr, is_some,
}
use mathlib.Core.Path.{subst}
use interactive_whatsapp_meo.Base.Text.{is_empty, trim_space}
use interactive_whatsapp_meo.Store.Models.{ApiKey}
use interactive_whatsapp_meo.Store.Db.{Db, take_turn, take_turn-IsTurn, sql_fault, sql_done}
use interactive_whatsapp_meo.Store.Table.{find}
use interactive_whatsapp_meo.Store.ApiKeys.{has_hash, insert_key, bootstrap}

-- A row more.
has_hash-append :
    (q : String) (keys : List ApiKey) (k : ApiKey)
    → is_some (find (λ (x : ApiKey). str_eq x.key_hash q) (keys ++ k ∷ []))
      ≡ (is_some (find (λ (x : ApiKey). str_eq x.key_hash q) keys) || str_eq k.key_hash q)
has_hash-append q [] k = ground arith
has_hash-append q (x ∷ keys) k = ground (arith, has_hash-append q keys k)

-- A known hash again.
has_hash-known :
    (p q : String) (db : Db) → has_hash p db ≡ true → (has_hash q db || str_eq p q) ≡ has_hash q db
has_hash-known p q db known = elim (Bool-cases (str_eq p q)) [
  | inl same ↦ rw (same, subst (λ s. has_hash s db ≡ true) (str_eq_of_true p q same) known) refl
  | inr apart ↦ rw apart (ground arith)
]

module _ (hash : String → String) where
  insert_key-has_hash :
      (q key : String) (db : Db)
      → has_hash q (insert_key hash key db).1 ≡ (has_hash q db || str_eq (hash key) q)
  insert_key-has_hash q key db = elim (Bool-cases (has_hash (hash key) db)) [
    | inl known ↦ rw known (sym (has_hash-known (hash key) q db known))
    | inr new ↦ rw new (has_hash-append q db.api_keys _)
  ]

  insert_key_ok : (key : String) (db : Db) → (insert_key hash key db).0 ≡ ok tt
  insert_key_ok key db = ground arith

  -- A key is written unless the statement fails.
  bootstrap_done :
      (given : String) (db : Db)
      → is_empty (trim_space given) ≡ false
      → (take_turn db).0 ≡ none
      → (bootstrap hash given db).1 ≡ (insert_key hash (trim_space given) (take_turn db).1).1
  unfolding bootstrap
  bootstrap_done given db full quiet = ground (
    arith,
    full,
    sql_done (insert_key hash (trim_space given)) db quiet,
    insert_key_ok (trim_space given) (take_turn db).1,
  )

  pub bootstrap-has_hash :
      (q given : String) (db : Db)
      → is_empty (trim_space given) ≡ false
      → (bootstrap hash given db).0 ≡ ok tt
      → has_hash q (bootstrap hash given db).1
        ≡ (has_hash q db || str_eq (hash (trim_space given)) q)
  unfolding bootstrap
  bootstrap-has_hash q given db full fine = elim (Option-cases (take_turn db).0) [
    | inr (e, fault) ↦
        absurd
          (ground (arith, fine, sql_fault (insert_key hash (trim_space given)) db e fault, full))
    | inl quiet ↦ rw (bootstrap_done given db full quiet) (
        insert_key-has_hash q (trim_space given) (take_turn db).1
        ∙ ap
            (λ keys.
              is_some (find (λ (k : ApiKey). str_eq k.key_hash q) keys)
              || str_eq (hash (trim_space given)) q)
            (take_turn-IsTurn db).api_keys)
  ]
