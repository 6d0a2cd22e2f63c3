-- ===== src/Cleaning/Paths.antt =====
-- The transactions of cleaning.service.ts in any order: which statuses a task goes through, and that
-- the events tell the state of the rooms.
use Prim.Native.String.{String}
use pms_homestay.Prelude.{
  ℕ, ◌≡◌, refl, sym, ap, ◌∙◌, Bool, true, false, Option, none, some, List, [], ◌∷◌, ok, err,
  Ensures, Ensures-bind, Ensures-next, Ensures-weaken, ◌>>=◌, Ensures-guard, Bool-cases, inl, inr,
  ◌==◌, if◌then◌else◌, arith,
}
use pms_homestay.Cleaning.Types.{
  CleaningTask, CleaningTaskStatus, pending, in_progress, completed, verified, cancelled,
  HousekeepingStatus, clean, dirty, cleaning, inspection, PhotoKey, Notes, Room, CleaningEvent,
  housekeeping_changed, task_assigned, task_completed, Housekeeping, CleaningError, CleaningCaller,
  CleaningCall, is_pending, is_in_progress, is_completed, is_unfinished, room_not_found,
  duplicate_id,
}
use pms_homestay.Cleaning.{
  put_at, is_there, publish, set_room_housekeeping, with_housekeeping, insert_task,
  create_checkout_tasks, CreateCleaningTaskRequest, create_task_tx, emit_assigned, emit_fresh,
  load_task, update_where, UpdateCleaningTaskRequest, update_task_tx, with_fields, assign_tx,
  with_assignee, start_tx, as_started, complete_tx, as_completed, verify_tx, as_verified,
  cancel_task_tx, as_cancelled,
}

pub data CleaningTransaction : Type 0 where
  checking_out : (property_id booking_id : ℕ) → List ℕ → CleaningTransaction
  creating : CreateCleaningTaskRequest → CleaningTransaction
  updating : ℕ → ℕ → UpdateCleaningTaskRequest → CleaningTransaction
  assigning : ℕ → ℕ → CleaningTransaction
  starting : ℕ → List PhotoKey → CleaningCaller → CleaningTask → CleaningTransaction
  completing :
      ℕ → List PhotoKey → Option Notes → CleaningCaller → CleaningTask → CleaningTransaction
  verifying : ℕ → Option Notes → CleaningCaller → CleaningTask → CleaningTransaction
  cancelling : ℕ → String → CleaningTask → CleaningTransaction

unfoldable pub perform : CleaningTransaction → Housekeeping → CleaningCall Housekeeping
perform (checking_out property_id booking_id rooms) db =
    create_checkout_tasks property_id booking_id rooms db
perform (creating dto) db = create_task_tx dto db
perform (updating id version dto) db = update_task_tx id version dto db
perform (assigning id by) db = assign_tx id by db
perform (starting id photos c loaded) db = start_tx id photos c loaded db
perform (completing id photos notes c loaded) db = complete_tx id photos notes c loaded db
perform (verifying id notes c loaded) db = verify_tx id notes c loaded db
perform (cancelling id reason loaded) db = cancel_task_tx id reason loaded db

-- A transaction that throws leaves the tables as they were.
unfoldable pub kept_or : Housekeeping → CleaningCall Housekeeping → Housekeeping
kept_or db (ok d) = d
kept_or db (err e) = db

unfoldable pub perform_all : List CleaningTransaction → Housekeeping → Housekeeping
unfolding perform kept_or
perform_all [] db = db
perform_all (t ∷ ts) db = perform_all ts (kept_or db (perform t db))

-- The life of a task
pub data Step : CleaningTaskStatus → CleaningTaskStatus → Type 0 where
  begin : Step pending in_progress
  finish : Step in_progress completed
  accept : Step completed verified
  drop : Step pending cancelled
  abandon : Step in_progress cancelled

pub data Life : CleaningTaskStatus → CleaningTaskStatus → Type 0 where
  same : {s : CleaningTaskStatus} → Life s s
  later : {s m t : CleaningTaskStatus} → Step s m → Life m t → Life s t

Life-trans : {s m t : CleaningTaskStatus} → Life s m → Life m t → Life s t
Life-trans same q = q
Life-trans (later e p) q = later e (Life-trans p q)

-- The task is still there, with its room, further on in its life.
abbrev pub Later : CleaningTask → Option CleaningTask → Type 0
Later t o = (t' : CleaningTask) × (o ≡ some t') × (t'.room_id ≡ t.room_id) × Life t.status t'.status

abbrev pub Onward : Housekeeping → Housekeeping → Type 0
Onward db d = (i : ℕ) (t : CleaningTask) → db.tasks i ≡ some t → Later t (d.tasks i)

Onward-trans : (a b c : Housekeeping) → Onward a b → Onward b c → Onward a c
Onward-trans a b c h k i t e =
    let (t', e', r', p) = h i t e in
    let (t'', e'', r'', q) = k i t' e' in (t'', e'', r'' ∙ r', Life-trans p q)

same_key : (i j : ℕ) → (i == j) ≡ true → i ≡ j
same_key i j h = ground arith

flip : (i j : ℕ) (t : Bool) → (i == j) ≡ t → (j == i) ≡ t
flip i j t h = ground arith

-- What the events say of a room, the newest first
unfoldable pub last_told : ℕ → List CleaningEvent → Option HousekeepingStatus
last_told i [] = none
last_told i (housekeeping_changed p r s ∷ es) =
    let rest = last_told i es in if r == i then some s else rest
last_told i (task_assigned t ∷ es) = last_told i es
last_told i (task_completed t ∷ es) = last_told i es

unfoldable pub status_of : Option Room → Option HousekeepingStatus
status_of none = none
status_of (some r) = some r.housekeeping_status

unfoldable pub told_or :
    Option HousekeepingStatus → Option HousekeepingStatus → Option HousekeepingStatus
told_or none before = before
told_or (some s) before = some s

-- Whoever knows the rooms of `base` and has read the events knows the rooms.
abbrev pub Told : Housekeeping → Housekeeping → Type 0
Told base d =
    (i : ℕ) → status_of (d.rooms i) ≡ told_or (last_told i d.outbox) (status_of (base.rooms i))

module _ (base : Housekeeping) where
  abbrev Fine : Housekeeping → Housekeeping → Type 0
  Fine db d = Onward db d × (Told base db → Told base d)

  Fine-refl : (db : Housekeeping) → Fine db db
  Fine-refl db = (λ i t e. (t, e, refl, same), λ h. h)

  Fine-trans : (a b c : Housekeeping) → Fine a b → Fine b c → Fine a c
  Fine-trans a b c h k = (Onward-trans a b c h.0 k.0, λ t. k.1 (h.1 t))

  update_where-Fine :
      (test : CleaningTask → Bool) (x : CleaningError) (id : ℕ) (f : CleaningTask → CleaningTask)
      (db : Housekeeping)
      → ((t : CleaningTask)
          → test t ≡ true
          → ((f t).room_id ≡ t.room_id) × Life t.status (f t).status)
      → Ensures (Fine db) (update_where test x id f db)
  unfolding update_where
  update_where-Fine test x id f db life = go (db.tasks id) refl
    where
      moved :
          (t : CleaningTask)
          → db.tasks id ≡ some t
          → test t ≡ true
          → Fine db (record db { tasks = put_at id (f t) db.tasks })
      moved t e c = (
        λ i u e'. elim (Bool-cases (i == id)) [
          | inl k ↦
              let both : some u ≡ some t = sym e' ∙ (ap db.tasks (same_key i id k) ∙ e) in
              let one : u ≡ t = cc in (f t, rw k refl, rw one (life t c).0, rw one (life t c).1)
          | inr k ↦ rw k (u, e', refl, same)
        ],
        λ h. h,
      )

      go :
          (o : Option CleaningTask)
          → db.tasks id ≡ o
          → Ensures (Fine db) (elim o [
            | none ↦ err x
            | some t ↦ if test t then ok (record db { tasks = put_at id (f t) db.tasks }) else err x
          ])
      go none e = tt
      go (some t) e = elim (Bool-cases (test t)) [ inl c ↦ rw c (moved t e c) | inr c ↦ rw c tt ]

  insert_task-Fine : (t : CleaningTask) (db : Housekeeping) → Ensures (Fine db) (insert_task t db)
  unfolding insert_task
  insert_task-Fine t db = Ensures-guard (Fine db) (is_there (db.tasks t.id)) duplicate_id _ (λ free.
      (
        λ i u e. elim (Bool-cases (i == t.id)) [
          | inl k ↦
              let taken : is_there (db.tasks t.id) ≡ true =
                ap is_there (sym (ap db.tasks (same_key i t.id k)) ∙ e) in
              cc
          | inr k ↦ rw k (u, e, refl, same)
        ],
        λ h. h,
      ))

  with_housekeeping-Told :
      (property_id room_id : ℕ) (s : HousekeepingStatus) (db : Housekeeping) (r : Room) (i : ℕ)
      → Told base db
      → status_of (put_at room_id (with_housekeeping s r) db.rooms i)
        ≡ told_or
            (last_told i (housekeeping_changed property_id room_id s ∷ db.outbox))
            (status_of (base.rooms i))
  unfolding last_told status_of told_or with_housekeeping
  with_housekeeping-Told property_id room_id s db r i h = elim (Bool-cases (i == room_id)) [
    | inl k ↦ rw (k, flip i room_id true k) refl
    | inr k ↦ rw (k, flip i room_id false k) (h i)
  ]

  set_room-Fine :
      (property_id room_id : ℕ) (s : HousekeepingStatus) (db : Housekeeping)
      → Ensures (Fine db) (set_room_housekeeping property_id room_id s db)
  unfolding set_room_housekeeping publish
  set_room-Fine property_id room_id s db = go (db.rooms room_id)
    where
      go :
          (o : Option Room)
          → Ensures (Fine db) (elim o [
            | none ↦ err room_not_found
            | some r ↦ ok (
                publish
                  (housekeeping_changed property_id room_id s)
                  (record db { rooms = put_at room_id (with_housekeeping s r) db.rooms }))
          ])
      go none = tt
      go (some r) = (
        λ i t e. (t, e, refl, same),
        λ h i. with_housekeeping-Told property_id room_id s db r i h,
      )

  emit_fresh-Fine :
      (event : CleaningTask → CleaningEvent) (id : ℕ) (db : Housekeeping)
      → ((t : CleaningTask) (i : ℕ) (es : List CleaningEvent)
          → last_told i (event t ∷ es) ≡ last_told i es)
      → Ensures (Fine db) (emit_fresh event id db)
  unfolding emit_fresh publish
  emit_fresh-Fine event id db silent =
      Ensures-next (Fine db) (load_task id db) _
        (λ t e. (λ i u k. (u, k, refl, same), λ h i. rw (silent t i db.outbox) (h i)))

  -- A write of a task, and then of its room
  then_room :
      (property_id room_id : ℕ) (s : HousekeepingStatus) (db : Housekeeping)
      (r : CleaningCall Housekeeping)
      → Ensures (Fine db) r
      → Ensures (Fine db) (r >>= λ d. set_room_housekeeping property_id room_id s d)
  then_room property_id room_id s db r h = Ensures-bind (Fine db) (Fine db) r _ h (λ d k.
      Ensures-weaken (Fine d) (Fine db) (set_room_housekeeping property_id room_id s d)
        (set_room-Fine property_id room_id s d) (λ e m. Fine-trans db d e k m))

  create_checkout_tasks-Fine :
      (property_id booking_id : ℕ) (rooms : List ℕ) (db : Housekeeping)
      → Ensures (Fine db) (create_checkout_tasks property_id booking_id rooms db)
  unfolding create_checkout_tasks
  create_checkout_tasks-Fine property_id booking_id [] db = Fine-refl db
  create_checkout_tasks-Fine property_id booking_id (room ∷ rooms) db =
      Ensures-bind (Fine db) (Fine db) _ _ (insert_task-Fine _ db) (λ d₁ k₁.
        Ensures-bind (Fine db) (Fine d₁) _ _ (set_room-Fine property_id room dirty d₁) (λ d₂ k₂.
          Ensures-weaken (Fine d₂) (Fine db) (create_checkout_tasks property_id booking_id rooms d₂)
            (create_checkout_tasks-Fine property_id booking_id rooms d₂)
            (λ d₃ k₃. Fine-trans db d₂ d₃ (Fine-trans db d₁ d₂ k₁ k₂) k₃)))

  create_task_tx-Fine :
      (dto : CreateCleaningTaskRequest) (db : Housekeeping)
      → Ensures (Fine db) (create_task_tx dto db)
  unfolding create_task_tx emit_assigned publish last_told
  create_task_tx-Fine dto db =
      Ensures-bind (Fine db) (Fine db) _ _ (insert_task-Fine _ db)
        (λ d k. elim (Bool-cases (is_there dto.assigned_to)) [ inl t ↦ rw t k | inr t ↦ rw t k ])

  pending_only : (s : CleaningTaskStatus) → is_pending s ≡ true → Life s in_progress
  unfolding is_pending
  pending_only pending h = later begin same
  pending_only in_progress h = cc
  pending_only completed h = cc
  pending_only verified h = cc
  pending_only cancelled h = cc

  in_progress_only : (s : CleaningTaskStatus) → is_in_progress s ≡ true → Life s completed
  unfolding is_in_progress
  in_progress_only in_progress h = later finish same
  in_progress_only pending h = cc
  in_progress_only completed h = cc
  in_progress_only verified h = cc
  in_progress_only cancelled h = cc

  completed_only : (s : CleaningTaskStatus) → is_completed s ≡ true → Life s verified
  unfolding is_completed
  completed_only completed h = later accept same
  completed_only pending h = cc
  completed_only in_progress h = cc
  completed_only verified h = cc
  completed_only cancelled h = cc

  unfinished_only : (s : CleaningTaskStatus) → is_unfinished s ≡ true → Life s cancelled
  unfolding is_unfinished
  unfinished_only pending h = later drop same
  unfinished_only in_progress h = later abandon same
  unfinished_only completed h = cc
  unfinished_only verified h = cc
  unfinished_only cancelled h = cc

  perform-Fine : (t : CleaningTransaction) (db : Housekeeping) → Ensures (Fine db) (perform t db)
  unfolding perform update_task_tx with_fields assign_tx with_assignee start_tx as_started
      complete_tx as_completed verify_tx as_verified cancel_task_tx as_cancelled
  perform-Fine (checking_out property_id booking_id rooms) db =
      create_checkout_tasks-Fine property_id booking_id rooms db
  perform-Fine (creating dto) db = create_task_tx-Fine dto db
  perform-Fine (updating id version dto) db = update_where-Fine _ _ id _ db (λ t h. (refl, same))
  perform-Fine (assigning id by) db =
      Ensures-bind (Fine db) (Fine db) _ _ (update_where-Fine _ _ id _ db (λ t h. (refl, same)))
        (λ d k.
          Ensures-weaken (Fine d) (Fine db) (emit_fresh task_assigned id d)
            (emit_fresh-Fine task_assigned id d (λ t i es. unfold last_told in refl))
            (λ e m. Fine-trans db d e k m))
  perform-Fine (starting id photos c loaded) db =
      then_room loaded.property_id loaded.room_id cleaning db _
        (update_where-Fine _ _ id _ db (λ t h. (refl, pending_only t.status h)))
  perform-Fine (completing id photos notes c loaded) db =
      Ensures-bind (Fine db) (Fine db) _ _
        (update_where-Fine _ _ id _ db (λ t h. (refl, in_progress_only t.status h)))
        (λ d₁ k₁.
          Ensures-bind (Fine db) (Fine d₁) _ _
            (set_room-Fine loaded.property_id loaded.room_id inspection d₁)
            (λ d₂ k₂.
              Ensures-weaken (Fine d₂) (Fine db) (emit_fresh task_completed id d₂)
                (emit_fresh-Fine task_completed id d₂ (λ t i es. unfold last_told in refl))
                (λ e m. Fine-trans db d₂ e (Fine-trans db d₁ d₂ k₁ k₂) m)))
  perform-Fine (verifying id notes c loaded) db =
      then_room loaded.property_id loaded.room_id clean db _
        (update_where-Fine _ _ id _ db (λ t h. (refl, completed_only t.status h)))
  perform-Fine (cancelling id reason loaded) db =
      update_where-Fine _ _ id _ db (λ t h. (refl, unfinished_only t.status h))

  kept_or-Fine :
      (db : Housekeeping) (r : CleaningCall Housekeeping)
      → Ensures (Fine db) r
      → Fine db (kept_or db r)
  unfolding kept_or
  kept_or-Fine db (ok d) h = h
  kept_or-Fine db (err e) h = Fine-refl db

  perform_all-Fine :
      (ts : List CleaningTransaction) (db : Housekeeping) → Fine db (perform_all ts db)
  unfolding perform_all
  perform_all-Fine [] db = Fine-refl db
  perform_all-Fine (t ∷ ts) db =
      Fine-trans db (kept_or db (perform t db)) (perform_all ts (kept_or db (perform t db)))
        (kept_or-Fine db (perform t db) (perform-Fine t db))
        (perform_all-Fine ts (kept_or db (perform t db)))

-- After any transactions of cleaning tasks in any order, each on any snapshot of a task, those that
-- throw being rolled back, a task that was there is still there, for the same room, and its status is
-- reached from the one it had by the steps PENDING to IN_PROGRESS to COMPLETED to VERIFIED, and from
-- PENDING or IN_PROGRESS to CANCELLED.
pub perform_all-status :
    (ts : List CleaningTransaction) (db : Housekeeping) (i : ℕ) (t : CleaningTask)
    → db.tasks i ≡ some t
    → (t' : CleaningTask) × ((perform_all ts db).tasks i ≡ some t')
      × (t'.room_id ≡ t.room_id)
      × Life t.status t'.status
perform_all-status ts db i t e = (perform_all-Fine db ts db).0 i t e

-- If no event is published yet, then after any transactions of cleaning tasks, in any order and on any
-- snapshots, the housekeeping status of every room is the one that the last event of the room tells,
-- and where there is none it is the one from before.
pub perform_all-told :
    (ts : List CleaningTransaction) (db : Housekeeping) (i : ℕ)
    → db.outbox ≡ []
    → status_of ((perform_all ts db).rooms i)
      ≡ told_or (last_told i (perform_all ts db).outbox) (status_of (db.rooms i))
perform_all-told ts db i e =
    (perform_all-Fine db ts db).1 (λ j. rw e (unfold last_told told_or in refl)) i
