-- ===== src/Cleaning.antt =====
-- apps/api/src/modules/cleaning/cleaning.service.ts: the tasks that make the rooms ready. A call loads
-- the task in one transaction and writes in another, which is a function of its own.
pub mod Types
pub mod Paths
pub mod Ready
mod Tests
use Prim.Native.String.{String}
use pms_homestay.Prelude.{
  ℕ, ◌+◌, Bool, true, false, not, Option, none, some, List, [], ◌∷◌, ◌==◌, if◌then◌else◌, ok, err,
  ◌>>=◌, ◌>>◌, throw_if,
}
use pms_homestay.Engine.Types.{or_else}
use pms_homestay.Cleaning.Types.{
  CleaningTask, CleaningTaskStatus, pending, in_progress, completed, verified, cancelled,
  CleaningTaskType, checkout_clean, HousekeepingStatus, clean, dirty, cleaning, inspection,
  PhotoKey, Notes, written, cancelled_for, cancelled_after, Room, CleaningEvent,
  housekeeping_changed, task_assigned, task_completed, Housekeeping, CleaningError, task_not_found,
  invalid_status, status_race, version_conflict, photo_invalid_key, room_not_found,
  room_property_mismatch, forbidden, duplicate_id, CleaningPermission, task_assign, task_complete,
  CleaningCaller, CleaningCall, is_pending, is_in_progress, is_completed, is_unfinished, is_own_key,
}

abbrev pub put_at : {V : Type 0} → ℕ → V → (ℕ → Option V) → ℕ → Option V
put_at k v f j = if j == k then some v else f j

unfoldable pub publish : CleaningEvent → Housekeeping → Housekeeping
publish e db = record db { outbox = e ∷ db.outbox }

unfoldable pub with_housekeeping : HousekeepingStatus → Room → Room
with_housekeeping status r = record r { housekeeping_status = status; version = r.version + 1 }

-- setRoomHousekeepingTx(tx, propertyId, roomId, status)
unfoldable pub set_room_housekeeping :
    ℕ → ℕ → HousekeepingStatus → Housekeeping → CleaningCall Housekeeping
unfolding with_housekeeping
set_room_housekeeping property_id room_id status db = elim (db.rooms room_id) [
  | none ↦ err room_not_found
  | some r ↦ ok (
      publish (housekeeping_changed property_id room_id status)
        (record db { rooms = put_at room_id (with_housekeeping status r) db.rooms }))
]

abbrev pub is_there : {A : Type 0} → Option A → Bool
is_there none = false
is_there (some _) = true

unfoldable pub insert_task : CleaningTask → Housekeeping → CleaningCall Housekeeping
insert_task t db = do
  throw_if (is_there (db.tasks t.id)) duplicate_id
  ok (record db { tasks = put_at t.id t db.tasks; last = t.id })

unfoldable pub new_task :
    ℕ → ℕ → ℕ → Option ℕ → CleaningTaskType → Option ℕ → ℕ → Option ℕ → Option Notes → CleaningTask
new_task id property_id room_id booking_id task_type assigned_to priority due_at notes = record {
  id = id;
  property_id = property_id;
  room_id = room_id;
  booking_id = booking_id;
  task_type = task_type;
  status = pending;
  assigned_to = assigned_to;
  priority = priority;
  due_at = due_at;
  started_at = none;
  completed_at = none;
  verified_by = none;
  verified_at = none;
  notes = notes;
  before_photos = [];
  after_photos = [];
  version = 0;
}

-- createCheckoutTasksTx(tx, { propertyId, bookingId, roomIds })
unfoldable pub create_checkout_tasks : ℕ → ℕ → List ℕ → Housekeeping → CleaningCall Housekeeping
create_checkout_tasks property_id booking_id [] db = ok db
create_checkout_tasks property_id booking_id (room ∷ rooms) db =
    insert_task
      (new_task (db.last + 1) property_id room (some booking_id) checkout_clean none 0 none none) db
    >>= λ db₁. set_room_housekeeping property_id room dirty db₁ >>= λ db₂.
        create_checkout_tasks property_id booking_id rooms db₂

unfoldable pub authorize_task : CleaningCaller → ℕ → CleaningPermission → CleaningCall (Unit {0})
authorize_task c property_id p = throw_if (not (c.authorized property_id p)) forbidden

pub record CreateCleaningTaskRequest : Type 0 where
  pub property_id : ℕ
  pub room_id : ℕ
  pub booking_id : Option ℕ
  pub task_type : CleaningTaskType
  pub assigned_to : Option ℕ
  pub priority : ℕ
  pub due_at : Option ℕ
  pub notes : Option Notes

-- assertRoomInProperty(roomId, propertyId, user)
unfoldable pub assert_room_in_property : ℕ → ℕ → Housekeeping → CleaningCall (Unit {0})
assert_room_in_property room_id property_id db = elim (db.rooms room_id) [
  | none ↦ err room_not_found
  | some r ↦ throw_if (not (r.property_id == property_id)) room_property_mismatch
]

unfoldable pub emit_assigned : CleaningTask → Housekeeping → Housekeeping
emit_assigned t db = publish (task_assigned t) db

-- The transaction of create(), and create(dto, user).
unfoldable pub create_task_tx : CreateCleaningTaskRequest → Housekeeping → CleaningCall Housekeeping
create_task_tx dto db = do
  let t =
      new_task (db.last + 1) dto.property_id dto.room_id dto.booking_id dto.task_type
        dto.assigned_to dto.priority dto.due_at dto.notes
  db₁ ← insert_task t db
  ok (if is_there dto.assigned_to then emit_assigned t db₁ else db₁)

unfoldable pub create_task :
    CreateCleaningTaskRequest → CleaningCaller → Housekeeping → CleaningCall Housekeeping
create_task dto c db = do
  authorize_task c dto.property_id task_assign
  assert_room_in_property dto.room_id dto.property_id db
  create_task_tx dto db

-- loadOrThrow(id, user)
unfoldable pub load_task : ℕ → Housekeeping → CleaningCall CleaningTask
load_task id db = elim (db.tasks id) [ none ↦ err task_not_found | some t ↦ ok t ]

-- updateMany({ where: { id, … }, data }), with the error for a count of 0
unfoldable pub update_where :
    (CleaningTask → Bool)
    → CleaningError
    → ℕ
    → (CleaningTask → CleaningTask)
    → Housekeeping
    → CleaningCall Housekeeping
update_where test e id f db = elim (db.tasks id) [
  | none ↦ err e
  | some t ↦ if test t then ok (record db { tasks = put_at id (f t) db.tasks }) else err e
]

-- A field that a request may leave out: `none` where it does
pub record UpdateCleaningTaskRequest : Type 0 where
  pub assigned_to : Option (Option ℕ)
  pub priority : Option ℕ
  pub due_at : Option (Option ℕ)
  pub notes : Option (Option Notes)

unfoldable pub with_fields : UpdateCleaningTaskRequest → CleaningTask → CleaningTask
with_fields dto t = record t {
  assigned_to = or_else dto.assigned_to t.assigned_to;
  priority = or_else dto.priority t.priority;
  due_at = or_else dto.due_at t.due_at;
  notes = or_else dto.notes t.notes;
  version = t.version + 1;
}

-- The transaction of update(), and update(id, expectedVersion, dto, user).
unfoldable pub update_task_tx :
    ℕ → ℕ → UpdateCleaningTaskRequest → Housekeeping → CleaningCall Housekeeping
unfolding with_fields
update_task_tx id expected_version dto db =
    update_where (λ t. t.version == expected_version) version_conflict id (with_fields dto) db

unfoldable pub update_task :
    ℕ → ℕ → UpdateCleaningTaskRequest → CleaningCaller → Housekeeping → CleaningCall Housekeeping
update_task id expected_version dto c db = do
  t ← load_task id db
  authorize_task c t.property_id task_assign
  update_task_tx id expected_version dto db

unfoldable pub with_assignee : ℕ → CleaningTask → CleaningTask
with_assignee by t = record t { assigned_to = some by; version = t.version + 1 }

unfoldable pub emit_fresh :
    (CleaningTask → CleaningEvent) → ℕ → Housekeeping → CleaningCall Housekeeping
emit_fresh event id db = load_task id db >>= λ t. ok (publish (event t) db)

-- The transaction of assign(), and assign(id, dto, user).
unfoldable pub assign_tx : ℕ → ℕ → Housekeeping → CleaningCall Housekeeping
unfolding with_assignee
assign_tx id by db =
    update_where (λ t. is_unfinished t.status) status_race id (with_assignee by) db >>= λ db₁.
    emit_fresh task_assigned id db₁

unfoldable pub assign : ℕ → ℕ → CleaningCaller → Housekeeping → CleaningCall Housekeeping
assign id by c db = do
  t ← load_task id db
  authorize_task c t.property_id task_assign
  throw_if (not (is_unfinished t.status)) invalid_status
  assign_tx id by db

-- validatePhotoKeys(keys, tenantId, taskId)
unfoldable pub validate_photo_keys : List PhotoKey → ℕ → ℕ → CleaningCall (Unit {0})
unfolding is_own_key
validate_photo_keys [] tenant task = ok tt
validate_photo_keys (k ∷ ks) tenant task =
    let rest = validate_photo_keys ks tenant task in
    if is_own_key tenant task k then rest else err photo_invalid_key

unfoldable pub or_photos : List PhotoKey → List PhotoKey → List PhotoKey
or_photos [] old = old
or_photos (k ∷ ks) old = k ∷ ks

unfoldable pub as_started : List PhotoKey → ℕ → CleaningTask → CleaningTask
unfolding or_photos
as_started photos now t = record t {
  status = in_progress;
  started_at = some now;
  before_photos = or_photos photos t.before_photos;
  version = t.version + 1;
}

-- The transaction of start(), for the task that was loaded before it, and start(id, dto, user).
unfoldable pub start_tx :
    ℕ → List PhotoKey → CleaningCaller → CleaningTask → Housekeeping → CleaningCall Housekeeping
unfolding as_started
start_tx id photos c loaded db =
    update_where (λ t. is_pending t.status) status_race id (as_started photos c.now) db >>= λ db₁.
    set_room_housekeeping loaded.property_id loaded.room_id cleaning db₁

unfoldable pub start : ℕ → List PhotoKey → CleaningCaller → Housekeeping → CleaningCall Housekeeping
start id photos c db = do
  t ← load_task id db
  authorize_task c t.property_id task_complete
  throw_if (not (is_pending t.status)) invalid_status
  validate_photo_keys photos c.tnt id
  start_tx id photos c t db

unfoldable pub or_notes : Option Notes → Option Notes → Option Notes
or_notes none old = old
or_notes (some n) old = some n

unfoldable pub as_completed : List PhotoKey → Option Notes → ℕ → CleaningTask → CleaningTask
unfolding or_photos or_notes
as_completed photos notes now t = record t {
  status = completed;
  completed_at = some now;
  after_photos = or_photos photos t.after_photos;
  notes = or_notes notes t.notes;
  version = t.version + 1;
}

-- The transaction of complete(), and complete(id, dto, user).
unfoldable pub complete_tx :
    ℕ
    → List PhotoKey
    → Option Notes
    → CleaningCaller
    → CleaningTask
    → Housekeeping
    → CleaningCall Housekeeping
unfolding as_completed
complete_tx id photos notes c loaded db =
    update_where (λ t. is_in_progress t.status) status_race id (as_completed photos notes c.now) db
    >>= λ db₁. set_room_housekeeping loaded.property_id loaded.room_id inspection db₁ >>= λ db₂.
        emit_fresh task_completed id db₂

unfoldable pub complete :
    ℕ → List PhotoKey → Option Notes → CleaningCaller → Housekeeping → CleaningCall Housekeeping
complete id photos notes c db = do
  t ← load_task id db
  authorize_task c t.property_id task_complete
  throw_if (not (is_in_progress t.status)) invalid_status
  validate_photo_keys photos c.tnt id
  complete_tx id photos notes c t db

unfoldable pub as_verified : Option Notes → ℕ → ℕ → CleaningTask → CleaningTask
unfolding or_notes
as_verified notes by now t = record t {
  status = verified;
  verified_by = some by;
  verified_at = some now;
  notes = or_notes notes t.notes;
  version = t.version + 1;
}

-- The transaction of verify(), and verify(id, dto, user).
unfoldable pub verify_tx :
    ℕ → Option Notes → CleaningCaller → CleaningTask → Housekeeping → CleaningCall Housekeeping
unfolding as_verified
verify_tx id notes c loaded db =
    update_where (λ t. is_completed t.status) status_race id (as_verified notes c.sub c.now) db
    >>= λ db₁. set_room_housekeeping loaded.property_id loaded.room_id clean db₁

unfoldable pub verify : ℕ → Option Notes → CleaningCaller → Housekeeping → CleaningCall Housekeeping
verify id notes c db = do
  t ← load_task id db
  authorize_task c t.property_id task_assign
  throw_if (not (is_completed t.status)) invalid_status
  verify_tx id notes c t db

unfoldable pub note_cancelled : Option Notes → String → Notes
note_cancelled none reason = cancelled_for reason
note_cancelled (some notes) reason = cancelled_after notes reason

unfoldable pub as_cancelled : Option Notes → String → CleaningTask → CleaningTask
unfolding note_cancelled
as_cancelled notes reason t = record t {
  status = cancelled;
  notes = some (note_cancelled notes reason);
  version = t.version + 1;
}

-- The transaction of cancel(), with the notes that were loaded before it, and cancel(id, reason, user).
unfoldable pub cancel_task_tx : ℕ → String → CleaningTask → Housekeeping → CleaningCall Housekeeping
unfolding as_cancelled
cancel_task_tx id reason loaded db =
    update_where (λ t. is_unfinished t.status) status_race id (as_cancelled loaded.notes reason) db

unfoldable pub cancel_task : ℕ → String → CleaningCaller → Housekeeping → CleaningCall Housekeeping
cancel_task id reason c db = do
  t ← load_task id db
  authorize_task c t.property_id task_assign
  throw_if (not (is_unfinished t.status)) invalid_status
  cancel_task_tx id reason t db
