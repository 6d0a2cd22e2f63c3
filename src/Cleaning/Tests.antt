-- ===== src/Cleaning/Tests.antt =====
-- A room that is made ready, while a second task of it is cancelled.
use Prim.Native.String.{String}
use pms_homestay.Prelude.{◌≡◌, refl, true, none, some, List, [], ◌∷◌, ◌==◌, if◌then◌else◌, ok, err}
use pms_homestay.Cleaning.Types.{
  CleaningTask, pending, verified, checkout_clean, dirty, clean, Room, Housekeeping, CleaningCaller,
  PhotoKey, key_of, written, photo_invalid_key, is_pending, is_own_key,
}
use pms_homestay.Cleaning.{start, load_task, authorize_task, validate_photo_keys, or_photos}
use pms_homestay.Cleaning.Paths.{
  CleaningTransaction, starting, completing, verifying, cancelling, perform_all, perform_all-status,
  perform_all-told, Life, status_of, told_or, last_told,
}
use pms_homestay.Cleaning.Ready.{ReadyRequest, all_own, make_ready, make_ready-clean}

abbrev maid : CleaningCaller
maid = record { sub = 4; tnt = 1; authorized = λ p q. true; now = 50 }

abbrev after_checkout : CleaningTask
after_checkout = record {
  id = 1;
  property_id = 3;
  room_id = 11;
  booking_id = some 7;
  task_type = checkout_clean;
  status = pending;
  assigned_to = none;
  priority = 0;
  due_at = none;
  started_at = none;
  completed_at = none;
  verified_by = none;
  verified_at = none;
  notes = none;
  before_photos = [];
  after_photos = [];
  version = 0;
}

abbrev room_11 : Room
room_11 = record { property_id = 3; housekeeping_status = dirty; version = 1 }

abbrev floor : Housekeeping
floor = record {
  tasks = λ i. if i == 1 then some after_checkout else none;
  rooms = λ i. if i == 11 then some room_11 else none;
  outbox = [];
  last = 1;
}

abbrev morning : List CleaningTransaction
morning =
    starting 1 [] maid after_checkout
    ∷ starting 1 [] maid after_checkout
    ∷ completing 1 [] none maid after_checkout
    ∷ verifying 1 none maid after_checkout
    ∷ cancelling 1 "no guest" after_checkout
    ∷ []

perform_all-status_example :
    (t : CleaningTask) × ((perform_all morning floor).tasks 1 ≡ some t)
    × (t.room_id ≡ 11)
    × Life pending t.status
perform_all-status_example = perform_all-status morning floor 1 after_checkout refl

perform_all-told_example :
    status_of ((perform_all morning floor).rooms 11)
    ≡ told_or (last_told 11 (perform_all morning floor).outbox) (status_of (some room_11))
perform_all-told_example = perform_all-told morning floor 11 refl

abbrev key : String → PhotoKey
key name = key_of 1 1 name

abbrev sent : ReadyRequest
sent = record {
  photos_before = key "bed.jpg" ∷ [];
  photos_after = key "made.jpg" ∷ key "bath.jpg" ∷ [];
  cleaner_notes = some (written "a lamp is broken");
  manager_notes = none;
}

make_ready-clean_example :
    (d : Housekeeping) × (make_ready 1 sent maid maid floor ≡ ok d)
    × ((t : CleaningTask) × (d.tasks 1 ≡ some t)
        × (t.status ≡ verified)
        × (t.verified_by ≡ some 4)
        × (t.before_photos ≡ or_photos sent.photos_before [])
        × (t.after_photos ≡ or_photos sent.photos_after []))
    × (status_of (d.rooms 11) ≡ some clean)
make_ready-clean_example =
    make_ready-clean floor 1 after_checkout room_11 sent maid maid refl refl refl refl refl
      (unfold all_own is_own_key in refl)

-- A key of another task is refused, and start() throws.
foreign_photo : start 1 (key_of 1 2 "bed.jpg" ∷ []) maid floor ≡ err photo_invalid_key
unfolding start load_task authorize_task is_pending validate_photo_keys is_own_key
foreign_photo = refl
