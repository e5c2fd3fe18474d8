-- ===== src/Webhooks/Counts.antt =====
-- What each statement of an attempt does to the count of attempts and POSTs.
use interactive_whatsapp_meo.Base.{
  ℕ, ◌+◌, ◌≤◌, ◌<◌, ◌≡◌, true, false, none, List, ◌∷◌, arith, ◌==◌, refl, ◌⊎◌, if◌then◌else◌, inl,
  inr, All,
}
use interactive_whatsapp_meo.Store.Models.{DeliveryRow}
use interactive_whatsapp_meo.Store.Db.{Db, take_turn}
use interactive_whatsapp_meo.Store.Webhooks.{is_waiting, start_attempt, set_started}
use interactive_whatsapp_meo.Webhooks.Rounds.{update_delivery-All}
use interactive_whatsapp_meo.Webhooks.Posts.{posts_of}
use interactive_whatsapp_meo.Webhooks.Service.{Reply, read_reply}
use interactive_whatsapp_meo.Webhooks.Settle.{settle, settle_lem, status_after}

-- A delivery was POSTed no more often than its attempts say, of which there are no more than
-- `max_attempts`, and fewer while another one may follow.
pub record IsCounted (max_attempts : ℕ) (posts : List ℕ) (d : DeliveryRow) : Type 0 where
  pub sent : posts_of d.id posts ≤ d.attempt_count
  pub within : d.attempt_count ≤ max_attempts
  pub waiting : is_waiting d.status ≡ true → d.attempt_count < max_attempts

-- While its attempt runs, the row is in `processing` and the attempt is counted, and the log may
-- have its POST.
pub record IsUnderway (max_attempts : ℕ) (posts : List ℕ) (id attempt_count : ℕ) (d : DeliveryRow)
    : Type 0 where
  pub counted : IsCounted max_attempts posts d
  pub this : (d.id == id) ≡ true → d.attempt_count ≡ attempt_count

-- What is asked of a log after an attempt at a delivery.
abbrev pub Adds : ℕ → List ℕ → List ℕ → Type 0
Adds id posts posts' = (posts' ≡ posts) ⊎ (posts' ≡ id ∷ posts)

module _ (max_attempts id attempt_count : ℕ) (posts posts' : List ℕ)
    (adds : Adds id posts posts') where
  posts_of-Adds : (j : ℕ) → posts_of j posts' ≤ posts_of j posts + (if id == j then 1 else 0)
  posts_of-Adds j = elim adds [
    | inl same ↦ rw same (ground arith)
    | inr once ↦ rw once (ground arith)
  ]

  set_started-IsUnderway :
      attempt_count ≤ max_attempts
      → posts_of id posts < attempt_count
      → (n : ℕ) (d : DeliveryRow) → (d.id == id) ≡ true
      → IsCounted max_attempts posts d
      → IsUnderway max_attempts posts' id attempt_count (set_started attempt_count n d)
  set_started-IsUnderway within left n d same h =
      let here : d.id ≡ id = ground arith in
      record {
        counted = record {
          sent = rw here (ground (arith, posts_of-Adds id));
          within = within;
          waiting = λ w. cc;
        };
        this = λ _. refl;
      }

  other-IsUnderway :
      (d : DeliveryRow)
      → (d.id == id) ≡ false
      → IsCounted max_attempts posts d
      → IsUnderway max_attempts posts' id attempt_count d
  other-IsUnderway d other h = record {
    counted = record {
      sent = ground (arith, posts_of-Adds d.id, h.sent);
      within = h.within;
      waiting = h.waiting;
    };
    this = λ same. ground arith;
  }

module _ (max_attempts id attempt_count : ℕ) (within : attempt_count ≤ max_attempts) where
  -- A retry is scheduled only while attempts are left.
  status_after-waiting :
      (reply : Reply)
      → is_waiting (status_after max_attempts attempt_count reply) ≡ true
      → attempt_count < max_attempts
  status_after-waiting reply h = ground arith

  pub settle-IsCounted :
      (at : ℕ) (reply : Reply) (posts : List ℕ) (n : ℕ) (d : DeliveryRow)
      → (d.id == id) ≡ true
      → IsUnderway max_attempts posts id attempt_count d
      → IsCounted max_attempts posts (settle max_attempts attempt_count at (read_reply reply) n d)
  settle-IsCounted at reply posts n d same h =
      let (same_id, status, count, _) = settle_lem max_attempts attempt_count at n reply d in
      record {
        sent = rw (same_id, count) h.counted.sent;
        within = rw count h.counted.within;
        waiting = λ w. rw (count, h.this same) (status_after-waiting reply (rw status at w));
      }

module _ (max_attempts : ℕ) where
  pub start_attempt-IsUnderway :
      (id n : ℕ) (db : Db) (posts' : List ℕ)
      → n ≤ max_attempts
      → posts_of id db.posts < n
      → Adds id db.posts posts'
      → (take_turn db).0 ≡ none
      → All (IsCounted max_attempts db.posts) db.deliveries
      → All (IsUnderway max_attempts posts' id n) (start_attempt id n db).1.deliveries
  unfolding start_attempt
  start_attempt-IsUnderway id n db posts' within left adds went h =
      update_delivery-All (IsCounted max_attempts db.posts) (IsUnderway max_attempts posts' id n)
        "start webhook attempt" id (set_started n) db
        (set_started-IsUnderway max_attempts id n db.posts posts' adds within left)
        (other-IsUnderway max_attempts id n db.posts posts' adds) went h
