-- ===== src/Sessions/Kept.antt =====
-- Methods of the manager that keep a relation between worlds: which steps they are made of, and how
-- they are put together.
use interactive_whatsapp_meo.Base.{
  ◌≡◌, none, some, List, [], ◌∷◌, ◌++◌, Result-cases, Option-cases, inl, inr, ℕ, String, Bool, true,
  false, Result, if◌then◌else◌,
}
use interactive_whatsapp_meo.Store.Models.{Session}
use interactive_whatsapp_meo.Store.Db.{Db, Action}
use interactive_whatsapp_meo.Whatsapp.Jid.{JidLib}
use interactive_whatsapp_meo.Sessions.World.{
  Runtime, World, Method, Task, on_db, try_db, ask, lift, ◌>>=◌,
}
use interactive_whatsapp_meo.Sessions.Runtimes.{runtime_of, drop_runtime}
use interactive_whatsapp_meo.Sessions.Login.{try, attach_runtime}
use interactive_whatsapp_meo.Sessions.Sending.Quiet.{bind_ok, bind_err}

module _ {lib : JidLib} (R : World lib → World lib → Type 0) where
  -- A method keeps the relation.
  pub record Kept {A : Type 0} (m : Method lib A) : Type 0 where
    pub kept : (w : World lib) → R w (m w).1

  -- The steps that the operations are made of: calls of the database and of the client, goroutines
  -- that start, a runtime that is attached, and one that is disconnected.
  pub record IsKept : Type 0 where
    pub trans : {u v w : World lib} → R u v → R v w → R u w
    pub frame :
        (w : World lib) (db : Db) (calls : ℕ) (launched : List Task)
        → R w (record w { db = db; calls = calls; launched = launched })
    pub attach :
        (session : Session) (ready : Bool) (w : World lib) → R w (attach_runtime session ready w).1
    pub disconnect :
        (session_id : String) (runtime : Runtime) (w : World lib)
        → runtime_of session_id w.runtimes ≡ some runtime
        → R w (record w {
          disconnected = w.disconnected ++ runtime.number ∷ [];
          runtimes = drop_runtime session_id w.runtimes;
        })

module _ {lib : JidLib} (R : World lib → World lib → Type 0) (laws : IsKept R) where
  pub bind-Kept :
      {A B : Type 0} (m : Method lib A) (f : A → Method lib B)
      → Kept R m
      → ((a : A) → Kept R (f a))
      → Kept R (m >>= f)
  bind-Kept m f first next = record {
    kept = λ w. elim (Result-cases (m w).0) [
      | inl (a, fine) ↦
          rw (bind_ok m f w a fine) (laws.trans (first.kept w) ((next a).kept (m w).1))
      | inr (e, failed) ↦ rw (bind_err m f w e failed) (first.kept w)
    ];
  }

  -- A method that only answers, or calls the database or the client.
  pub on_db-Kept :
      {A B : Type 0} (m : Action A) {f : A → Method lib B}
      → ((a : A) → Kept R (f a))
      → Kept R (on_db m >>= f)
  on_db-Kept m h = bind-Kept _ _ (record { kept = λ w. laws.frame w _ _ _ }) h

  pub try_db-Kept :
      {A B : Type 0} (m : Action A) {f : Result A → Method lib B}
      → ((a : Result A) → Kept R (f a))
      → Kept R (try_db m >>= f)
  try_db-Kept m h = bind-Kept _ _ (record { kept = λ w. laws.frame w _ _ _ }) h

  pub ask-Kept :
      {A B : Type 0} (m : ℕ → A) {f : A → Method lib B}
      → ((a : A) → Kept R (f a))
      → Kept R (ask m >>= f)
  ask-Kept m h = bind-Kept _ _ (record { kept = λ w. laws.frame w _ _ _ }) h

  pub lift-Kept :
      {A B : Type 0} (r : Result A) {f : A → Method lib B}
      → ((a : A) → Kept R (f a))
      → Kept R (lift r >>= f)
  lift-Kept r h = bind-Kept _ _ (record { kept = λ w. laws.frame w _ _ _ }) h

  pub if-Kept :
      {A : Type 0} (b : Bool) {m n : Method lib A}
      → Kept R m
      → Kept R n
      → Kept R (if b then m else n)
  if-Kept true h k = h
  if-Kept false h k = k

  pub try-Kept : {A : Type 0} (m : Method lib A) → Kept R m → Kept R (try m)
  try-Kept m h = record { kept = λ w. h.kept w }

  -- A method that looks for the runtime of a session.
  pub lookup-Kept :
      {A : Type 0} (session_id : String) (m : Method lib A) (f : Runtime → Method lib A)
      → Kept R m
      → ((r : Runtime) → Kept R (f r))
      → Kept R {A = A}
          (λ w. elim (runtime_of session_id w.runtimes) [ none ↦ m w | some r ↦ f r w ])
  lookup-Kept session_id m f h k = record {
    kept = λ w. elim (Option-cases (runtime_of session_id w.runtimes)) [
      | inl gone ↦ rw gone (h.kept w)
      | inr (r, there) ↦ rw there ((k r).kept w)
    ];
  }
