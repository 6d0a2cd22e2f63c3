-- ===== src/Cleaning/Types.antt =====
-- The tables of cleaning_tasks and rooms, the events, and the exceptions of cleaning.service.ts.
use Prim.Native.String.{String}
use pms_homestay.Prelude.{ℕ, Bool, true, false, Option, List, Result, ◌&&◌, ◌==◌}

pub data CleaningTaskStatus : Type 0 where
  pending in_progress completed verified cancelled : CleaningTaskStatus

pub data CleaningTaskType : Type 0 where
  checkout_clean deep_clean maintenance : CleaningTaskType

pub data HousekeepingStatus : Type 0 where
  clean dirty cleaning inspection : HousekeepingStatus

-- The key of a photo: cleaning/{tenant}/{task}/ and a rest, or another text
pub data PhotoKey : Type 0 where
  key_of : (tenant task : ℕ) → String → PhotoKey
  other_key : String → PhotoKey

-- The notes of a task: a text, or the reason of a cancellation after the notes before it
pub data Notes : Type 0 where
  written : String → Notes
  cancelled_for : String → Notes
  cancelled_after : Notes → String → Notes

pub record CleaningTask : Type 0 where
  pub id : ℕ
  pub property_id : ℕ
  pub room_id : ℕ
  pub booking_id : Option ℕ
  pub task_type : CleaningTaskType
  pub status : CleaningTaskStatus
  pub assigned_to : Option ℕ
  pub priority : ℕ
  pub due_at : Option ℕ
  pub started_at : Option ℕ
  pub completed_at : Option ℕ
  pub verified_by : Option ℕ
  pub verified_at : Option ℕ
  pub notes : Option Notes
  pub before_photos : List PhotoKey
  pub after_photos : List PhotoKey
  pub version : ℕ

pub record Room : Type 0 where
  pub property_id : ℕ
  pub housekeeping_status : HousekeepingStatus
  pub version : ℕ

pub data CleaningEvent : Type 0 where
  housekeeping_changed : (property_id room_id : ℕ) → HousekeepingStatus → CleaningEvent
  task_assigned task_completed : CleaningTask → CleaningEvent

-- `last` is the largest id that a task was given.
pub record Housekeeping : Type 0 where
  pub tasks : ℕ → Option CleaningTask
  pub rooms : ℕ → Option Room
  pub outbox : List CleaningEvent
  pub last : ℕ

pub data CleaningError : Type 0 where
  task_not_found : CleaningError
  -- 422: the task was loaded in a status that does not allow the call
  invalid_status : CleaningError
  -- 409: the status has changed since the task was loaded
  status_race : CleaningError
  version_conflict photo_invalid_key room_not_found room_property_mismatch forbidden duplicate_id :
      CleaningError

pub data CleaningPermission : Type 0 where
  task_assign task_complete : CleaningPermission

pub record CleaningCaller : Type 0 where
  pub sub : ℕ
  pub tnt : ℕ
  pub authorized : ℕ → CleaningPermission → Bool
  pub now : ℕ

abbrev pub CleaningCall : Type 0 → Type 0
CleaningCall A = Result CleaningError A

unfoldable pub is_pending : CleaningTaskStatus → Bool
is_pending pending = true
is_pending _ = false

unfoldable pub is_in_progress : CleaningTaskStatus → Bool
is_in_progress in_progress = true
is_in_progress _ = false

unfoldable pub is_completed : CleaningTaskStatus → Bool
is_completed completed = true
is_completed _ = false

-- ['PENDING', 'IN_PROGRESS']
unfoldable pub is_unfinished : CleaningTaskStatus → Bool
is_unfinished pending = true
is_unfinished in_progress = true
is_unfinished _ = false

unfoldable pub is_own_key : ℕ → ℕ → PhotoKey → Bool
is_own_key tenant task (key_of t i rest) = t == tenant && i == task
is_own_key tenant task (other_key text) = false
