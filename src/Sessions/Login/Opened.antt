-- ===== src/Sessions/Login/Opened.antt =====
-- `OpenQRCode`: the QR code that is reused, or the new login.
use text.Mathlib.TextEquality.{eq_iff}
use interactive_whatsapp_meo.Base.{
  ◌⊎◌, ◌<◌, none, ℕ, ◌≡◌, refl, ap, sym, ◌∙◌, ◌&&◌, String, Bool, true, false, some, arith, ok,
  Result-cases, Bool-cases, Option-cases, inl, inr, is_some, ◌||◌,
}
use interactive_whatsapp_meo.Base.Text.{is_empty, trim_space}
use interactive_whatsapp_meo.Store.Models.{
  Session, SessionRow, qr_ready, connected, deleted, status_eq,
}
use interactive_whatsapp_meo.Store.Db.{Db, sql, take_turn}
use interactive_whatsapp_meo.Store.Sessions.{get, has_id, is_live, update_one, reset_for_qr_code}
use interactive_whatsapp_meo.Store.Table.{find, find-holds}
use interactive_whatsapp_meo.Whatsapp.Jid.{JidLib}
use interactive_whatsapp_meo.Sessions.World.{Runtime, QrCodeResult, Client, World, ◌>>=◌}
use interactive_whatsapp_meo.Sessions.Runtimes.{runtime_of, disconnect_runtime, get_qr_code}
use interactive_whatsapp_meo.Sessions.Login.{
  OpenQrSessionResult, qr_of, has_fresh_qr, attach_runtime, attach_new_runtime,
  is_session_connected, delete_stored_device,
}
use interactive_whatsapp_meo.Sessions.Restart.{start_over, open_qr_code}

reset_for_qr_code-session_id :
    (session_id : String) (db : Db) (session : Session)
    → (reset_for_qr_code session_id db).0 ≡ ok session
    → session.session_id ≡ session_id
unfolding reset_for_qr_code update_one sql
reset_for_qr_code-session_id session_id db session h = elim (Option-cases (take_turn db).0) [
  | inr (e, broke) ↦ absurd (ground (arith, h))
  | inl went ↦
      let test : SessionRow → Bool = λ r. has_id session_id r && is_live r in
      elim (Option-cases (find test (take_turn db).1.sessions)) [
        | inl absent ↦ absurd (ground (arith, h))
        | inr (row, found) ↦
            let same = find-holds test (take_turn db).1.sessions row found in
            ground (arith, h, same, eq_iff row.session_id session_id)
      ]
]

module _ (lib : JidLib) (client : Client lib) where
  delete_stored_device-next_runtime :
      (device_jid : String) (w : World lib)
      → (delete_stored_device client device_jid w).1.next_runtime ≡ w.next_runtime
  unfolding delete_stored_device ◌>>=◌
  delete_stored_device-next_runtime device_jid w = ground arith

  -- What is left when the session starts over.
  start_over_lem :
      (session_id : String) (session : Session) (w : World lib) (result : OpenQrSessionResult)
      → (start_over client session_id session w).0 ≡ ok result
      → (runtime : Runtime) × (runtime_of session_id
            (start_over client session_id session w).1.runtimes
          ≡ some runtime)
        × (runtime.number ≡ w.next_runtime)
  unfolding start_over disconnect_runtime attach_new_runtime attach_runtime get_qr_code ◌>>=◌
  start_over_lem session_id session w result h =
      let cleared = (disconnect_runtime session_id w).1 in
      let without = delete_stored_device client session.device_jid cleared in
      let kept = delete_stored_device-next_runtime session.device_jid cleared in
      elim (Result-cases without.0) [
        | inr (e, failed) ↦ absurd (ground (arith, h, failed))
        | inl (nothing, gone) ↦ elim (Result-cases (reset_for_qr_code session_id without.1.db).0) [
          | inr (e, failed) ↦ absurd (ground (arith, h, failed, gone))
          | inl (reset, fine) ↦
              let same = reset_for_qr_code-session_id session_id without.1.db reset fine in
              let runtime : Runtime = record {
                number = without.1.next_runtime;
                session_id = reset.session_id;
                login_method = reset.login_method;
                ready = false;
              } in
              (
                runtime,
                ground (arith, same, fine, gone, eq_iff reset.session_id session_id),
                ground (arith, kept),
              )
        ]
      ]

-- The QR code of a session can be shown at a time: the session waits for a scan of it, and it has
-- not expired.
pub record IsShown (now : ℕ) (session : Session) (code : String) : Type 0 where
  pub status : session.status ≡ qr_ready
  pub full : is_empty (trim_space session.qr_code) ≡ false
  pub same_code : session.qr_code ≡ code
  pub unexpired :
      (session.qr_expires_at ≡ none) ⊎ ((at : ℕ) × (session.qr_expires_at ≡ some at) × (now < at))

-- How `OpenQRCode` succeeds, by the session as it is read first. Its QR code can be shown by the
-- clock then and is the answer, and the runtimes stay as they are; or it cannot, and the session has
-- a new runtime, newer than all before.
pub data Opens {lib : JidLib} (session_id : String) (w w' : World lib)
    (result : OpenQrSessionResult) : Type 0 where
  reused :
      (shown : QrCodeResult)
      → (get session_id w.db).0 ≡ ok result.session
      → result.qr_code ≡ some shown
      → shown.expires_at ≡ result.session.qr_expires_at
      → IsShown w'.db.now result.session shown.qr_code
      → w'.db ≡ (get session_id w.db).1
      → w'.runtimes ≡ w.runtimes
      → Opens session_id w w' result
  restarted :
      (found : Session) (runtime : Runtime)
      → (get session_id w.db).0 ≡ ok found
      → ¬ (IsShown (get session_id w.db).1.now found found.qr_code)
      → runtime_of session_id w'.runtimes ≡ some runtime
      → runtime.number ≡ w.next_runtime
      → Opens session_id w w' result

-- The code's test says just this.
has_fresh_qr-IsShown :
    (now : ℕ) (session : Session)
    → has_fresh_qr now session ≡ true
    → IsShown now session session.qr_code
has_fresh_qr-IsShown now session fresh = record {
  status = ground (arith, fresh);
  full = ground (arith, fresh);
  same_code = refl;
  unexpired = elim (Option-cases session.qr_expires_at) [
    | inl never ↦ inl never
    | inr (at, expires) ↦ inr (at, expires, ground (arith, fresh, expires))
  ];
}

not_fresh_qr-IsShown :
    (now : ℕ) (session : Session)
    → has_fresh_qr now session ≡ false
    → ¬ (IsShown now session session.qr_code)
not_fresh_qr-IsShown now session stale shown = elim shown.unexpired [
  | inl never ↦ absurd (ground (arith, stale, shown.status, shown.full, never))
  | inr (at, expires, later) ↦
      absurd (ground (arith, stale, shown.status, shown.full, expires, later))
]

module _ (lib : JidLib) (client : Client lib) where
  is_session_connected-keeps :
      (session : Session) (w : World lib)
      → ((is_session_connected client session w).1.runtimes ≡ w.runtimes)
        × ((is_session_connected client session w).1.next_runtime ≡ w.next_runtime)
        × ((is_session_connected client session w).1.db ≡ w.db)
        × ((b : Bool) × ((is_session_connected client session w).0 ≡ ok b))
  unfolding is_session_connected
  is_session_connected-keeps session w =
      elim (Option-cases (runtime_of session.session_id w.runtimes)) [
        | inl absent ↦ (ground arith, ground arith, ground arith, (false, ground arith))
        | inr (runtime, there) ↦ elim (Bool-cases (status_eq session.status connected)) [
          | inl y ↦ (ground arith, ground arith, ground arith, (true, ground arith))
          | inr n ↦ (
            ground arith,
            ground arith,
            ground arith,
            (client.is_connected runtime.number w.calls, ground arith),
          )
        ]
      ]

  -- When `OpenQRCode` succeeds, one of two things holds. The session as it is read waits for a scan
  -- of a QR code that has not expired by the clock; the answer is this session with this code, and
  -- neither the runtimes nor, the reading aside, the database change. Or the session has no such
  -- code, and it has a new runtime as its current one, with a number that no earlier runtime has.
  pub open_qr_code-Opens :
      (session_id : String) (w w' : World lib) (result : OpenQrSessionResult)
      → open_qr_code client session_id w ≡ (ok result, w')
      → Opens session_id w w' result
  unfolding open_qr_code ◌>>=◌
  open_qr_code-Opens session_id w w' result h = elim (Result-cases (get session_id w.db).0) [
    | inr (e, failed) ↦ absurd (ground (arith, h))
    | inl (found, fine) ↦
        let mid : World lib = record w { db = (get session_id w.db).1 } in
        elim (Bool-cases (is_some found.deleted_at || status_eq found.status deleted)) [
          | inl gone ↦ absurd (ground (arith, h))
          | inr live ↦
              let (kept, next, same_db, (online, asked)) = is_session_connected-keeps found mid in
              let waited = (is_session_connected client found mid).1 in
              elim (Bool-cases online) [
                | inl y ↦ absurd (ground (arith, h, asked))
                | inr n ↦ elim (Bool-cases (has_fresh_qr waited.db.now found)) [
                  | inl fresh ↦
                      let answer : OpenQrSessionResult = record {
                        session = found;
                        qr_code = some (qr_of found);
                      } in
                      let goes : open_qr_code client session_id w ≡ (ok answer, waited) =
                        ground (arith, fine, live, asked, n, fresh) in
                      let is_answer : answer ≡ result = ground (arith, goes, h) in
                      let is_end : waited ≡ w' = ap (λ o. o.1) (sym goes ∙ h) in
                      rw (sym is_answer, sym is_end)
                        (reused (qr_of found) fine refl refl
                          (has_fresh_qr-IsShown waited.db.now found fresh) same_db kept)
                  | inr stale ↦
                      let goes : open_qr_code client session_id w
                          ≡ start_over client session_id found waited =
                        ground (arith, fine, live, asked, n, stale) in
                      let (runtime, current, fresh) =
                        start_over_lem lib client session_id found waited result
                          (ap (λ o. o.0) (sym goes ∙ h)) in
                      restarted found runtime fine
                        (not_fresh_qr-IsShown _ found
                          (ap (λ db. has_fresh_qr db.now found) (sym same_db) ∙ stale))
                        (ap (λ o. runtime_of session_id o.1.runtimes) (sym h ∙ goes) ∙ current)
                        (fresh ∙ next)
                ]
              ]
        ]
  ]
