-- ===== src/Cleaning/Ready.antt =====
-- A task that nobody disturbs makes its room clean.
use pms_homestay.Prelude.{
  ℕ, ◌≡◌, refl, Bool, true, ◌&&◌, Option, some, List, [], ◌∷◌, ◌++◌, ok, ◌==◌, ◌>>=◌, arith,
}
use pms_homestay.Cleaning.Types.{
  CleaningTask, pending, verified, HousekeepingStatus, clean, cleaning, inspection, Room,
  Housekeeping, CleaningCaller, CleaningCall, CleaningError, status_race, task_assign,
  task_complete, is_pending, is_in_progress, is_completed, in_progress, completed, task_completed,
  housekeeping_changed, PhotoKey, is_own_key, Notes,
}
use pms_homestay.Cleaning.{
  put_at, publish, set_room_housekeeping, with_housekeeping, load_task, update_where,
  authorize_task, validate_photo_keys, start, start_tx, as_started, complete, complete_tx,
  as_completed, verify, verify_tx, as_verified, emit_fresh, or_photos,
}
use pms_homestay.Cleaning.Paths.{status_of}

key_refl : (i : ℕ) → (i == i) ≡ true
key_refl i = ground arith

-- The tables with a task and its room as given, and the event of the room
abbrev moved : ℕ → CleaningTask → Room → Housekeeping → Housekeeping
moved id u q db =
    publish (housekeeping_changed u.property_id u.room_id q.housekeeping_status)
      (record db { tasks = put_at id u db.tasks; rooms = put_at u.room_id q db.rooms })

abbrev Rows : ℕ → CleaningTask → Room → Housekeeping → Type 0
Rows id u q d = (d.tasks id ≡ some u) × (d.rooms u.room_id ≡ some q)

load_task-eq :
    (id : ℕ) (db : Housekeeping) (t : CleaningTask) → db.tasks id ≡ some t → load_task id db ≡ ok t
unfolding load_task
load_task-eq id db t h = rw (h, load_task) refl

update_where-eq :
    (test : CleaningTask → Bool) (x : CleaningError) (id : ℕ) (f : CleaningTask → CleaningTask)
    (db : Housekeeping) (t : CleaningTask)
    → db.tasks id ≡ some t
    → test t ≡ true
    → update_where test x id f db ≡ ok (record db { tasks = put_at id (f t) db.tasks })
unfolding update_where
update_where-eq test x id f db t h c = rw (h, update_where) (rw c refl)

set_room-eq :
    (property_id room_id : ℕ) (s : HousekeepingStatus) (db : Housekeeping) (q : Room)
    → db.rooms room_id ≡ some q
    → set_room_housekeeping property_id room_id s db
      ≡ ok (
          publish
            (housekeeping_changed property_id room_id s)
            (record db { rooms = put_at room_id (with_housekeeping s q) db.rooms }))
unfolding set_room_housekeeping
set_room-eq property_id room_id s db q h = rw (h, set_room_housekeeping) refl

-- Every key is one of the tenant and of the task.
unfoldable pub all_own : (tenant task : ℕ) → List PhotoKey → Bool
all_own tenant task [] = true
all_own tenant task (k ∷ ks) = is_own_key tenant task k && all_own tenant task ks

all_own-append :
    (tenant task : ℕ) (ks ls : List PhotoKey)
    → all_own tenant task (ks ++ ls) ≡ true
    → (all_own tenant task ks ≡ true) × (all_own tenant task ls ≡ true)
unfolding all_own
all_own-append tenant task [] ls h = (refl, h)
all_own-append tenant task (k ∷ ks) ls h =
    let rest = all_own-append tenant task ks ls in ground arith

validate_photo_keys-eq :
    (tenant task : ℕ) (ks : List PhotoKey)
    → all_own tenant task ks ≡ true
    → validate_photo_keys ks tenant task ≡ ok tt
unfolding all_own validate_photo_keys
validate_photo_keys-eq tenant task [] h = refl
validate_photo_keys-eq tenant task (k ∷ ks) h =
    let rest = validate_photo_keys-eq tenant task ks in ground arith

start-eq :
    (db : Housekeeping) (id : ℕ) (t : CleaningTask) (r : Room) (photos : List PhotoKey)
    (c : CleaningCaller)
    → Rows id t r db
    → t.status ≡ pending
    → c.authorized t.property_id task_complete ≡ true
    → all_own c.tnt id photos ≡ true
    → (d : Housekeeping) × (start id photos c db ≡ ok d)
      × Rows id (as_started photos c.now t) (with_housekeeping cleaning r) d
unfolding start start_tx authorize_task is_pending publish as_started with_housekeeping
start-eq db id t r photos c rows s may own = (
  moved id (as_started photos c.now t) (with_housekeeping cleaning r) db,
  rw
      (
        load_task-eq id db t rows.0,
        may,
        s,
        validate_photo_keys-eq c.tnt id photos own,
        update_where-eq (λ u. is_pending u.status) status_race id (as_started photos c.now) db t
            rows.0 (rw s refl),
        set_room-eq t.property_id t.room_id cleaning
            (record db { tasks = put_at id (as_started photos c.now t) db.tasks }) r rows.1,
      )
      refl,
  (rw (key_refl id) refl, rw (key_refl t.room_id) refl),
)

complete-eq :
    (db : Housekeeping) (id : ℕ) (t : CleaningTask) (r : Room) (photos : List PhotoKey)
    (notes : Option Notes) (c : CleaningCaller)
    → Rows id t r db
    → t.status ≡ in_progress
    → c.authorized t.property_id task_complete ≡ true
    → all_own c.tnt id photos ≡ true
    → (d : Housekeeping) × (complete id photos notes c db ≡ ok d)
      × Rows id (as_completed photos notes c.now t) (with_housekeeping inspection r) d
unfolding complete complete_tx authorize_task is_in_progress publish as_completed with_housekeeping
    emit_fresh
complete-eq db id t r photos notes c rows s may own =
    let u = as_completed photos notes c.now t in
    (
      publish (task_completed u) (moved id u (with_housekeeping inspection r) db),
      rw
          (
            load_task-eq id db t rows.0,
            may,
            s,
            validate_photo_keys-eq c.tnt id photos own,
            update_where-eq (λ v. is_in_progress v.status) status_race id
                (as_completed photos notes c.now) db t rows.0 (rw s refl),
            set_room-eq t.property_id t.room_id inspection
                (record db { tasks = put_at id u db.tasks }) r rows.1,
            load_task-eq id (moved id u (with_housekeeping inspection r) db) u
                (rw (key_refl id) refl),
          )
          refl,
      (rw (key_refl id) refl, rw (key_refl t.room_id) refl),
    )

verify-eq :
    (db : Housekeeping) (id : ℕ) (t : CleaningTask) (r : Room) (notes : Option Notes)
    (c : CleaningCaller)
    → Rows id t r db
    → t.status ≡ completed
    → c.authorized t.property_id task_assign ≡ true
    → (d : Housekeeping) × (verify id notes c db ≡ ok d)
      × Rows id (as_verified notes c.sub c.now t) (with_housekeeping clean r) d
unfolding verify verify_tx authorize_task is_completed publish as_verified with_housekeeping
verify-eq db id t r notes c rows s may = (
  moved id (as_verified notes c.sub c.now t) (with_housekeeping clean r) db,
  rw
      (
        load_task-eq id db t rows.0,
        may,
        s,
        update_where-eq (λ u. is_completed u.status) status_race id (as_verified notes c.sub c.now)
            db t rows.0 (rw s refl),
        set_room-eq t.property_id t.room_id clean
            (record db { tasks = put_at id (as_verified notes c.sub c.now t) db.tasks }) r rows.1,
      )
      refl,
  (rw (key_refl id) refl, rw (key_refl t.room_id) refl),
)

-- What the cleaner and the manager send with the three calls
pub record ReadyRequest : Type 0 where
  pub photos_before : List PhotoKey
  pub photos_after : List PhotoKey
  pub cleaner_notes : Option Notes
  pub manager_notes : Option Notes

unfoldable pub make_ready :
    ℕ → ReadyRequest → CleaningCaller → CleaningCaller → Housekeeping → CleaningCall Housekeeping
make_ready id dto cleaner manager db = start id dto.photos_before cleaner db >>= λ d₁.
    complete id dto.photos_after dto.cleaner_notes cleaner d₁ >>= λ d₂.
    verify id dto.manager_notes manager d₂

-- If a task is PENDING, its room is there, the cleaner may complete tasks of the property and the
-- manager may assign them, and every photo that is sent has a key of the cleaner's tenant and of the
-- task, then start and complete by the one and verify by the other return, one after the other, with
-- any notes: the task is VERIFIED by the manager, it has the photos that were sent, or those that it
-- had where none were sent, and the room is CLEAN.
pub make_ready-clean :
    (db : Housekeeping) (id : ℕ) (t : CleaningTask) (r : Room) (dto : ReadyRequest)
    (cleaner manager : CleaningCaller)
    → db.tasks id ≡ some t
    → db.rooms t.room_id ≡ some r
    → t.status ≡ pending
    → cleaner.authorized t.property_id task_complete ≡ true
    → manager.authorized t.property_id task_assign ≡ true
    → all_own cleaner.tnt id (dto.photos_before ++ dto.photos_after) ≡ true
    → (d : Housekeeping) × (make_ready id dto cleaner manager db ≡ ok d)
      × ((t' : CleaningTask) × (d.tasks id ≡ some t')
          × (t'.status ≡ verified)
          × (t'.verified_by ≡ some manager.sub)
          × (t'.before_photos ≡ or_photos dto.photos_before t.before_photos)
          × (t'.after_photos ≡ or_photos dto.photos_after t.after_photos))
      × (status_of (d.rooms t.room_id) ≡ some clean)
unfolding make_ready as_started as_completed as_verified with_housekeeping status_of
make_ready-clean db id t r dto cleaner manager task room s may may' own =
    let (before, after) = all_own-append cleaner.tnt id dto.photos_before dto.photos_after own in
    let (d₁, e₁, rows₁) = start-eq db id t r dto.photos_before cleaner (task, room) s may before in
    let (d₂, e₂, rows₂) =
      complete-eq d₁ id _ _ dto.photos_after dto.cleaner_notes cleaner rows₁ refl may after in
    let (d₃, e₃, rows₃) = verify-eq d₂ id _ _ dto.manager_notes manager rows₂ refl may' in
    (d₃, rw (e₁, e₂) e₃, (_, rows₃.0, refl, refl, refl, refl), rw rows₃.1 refl)
