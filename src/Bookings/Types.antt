-- ===== src/Bookings/Types.antt =====
-- The rows that bookings.service.ts reads and writes, the other services that it calls, and the
-- exceptions that it throws.
use Prim.Native.String.{String}
use pms_homestay.Prelude.{
  ℕ, Bool, true, false, Option, none, some, List, ◌∷◌, ◌==◌, if◌then◌else◌, Result, ok, err,
  throw_if,
}
use pms_homestay.Prelude.Int.{ℤ}
use pms_homestay.Occupancy.{MemberRoom, OccupancyRow, OccupancyError}
use pms_homestay.Engine.Types.{PricingMode}
use pms_homestay.Bookings.Status.{BookingStatus, can_transition}

pub data BookingError : Type 0 where
  booking_not_found : BookingError
  -- BOOKING_INVALID_STATUS with 422: the booking was loaded in a status that does not allow the call
  booking_invalid_status : BookingError
  -- BOOKING_INVALID_STATUS with 409: the status has changed since the booking was loaded
  booking_invalid_status_409 : BookingError
  version_conflict : BookingError
  forbidden : BookingError
  resource_not_found : BookingError
  resource_no_rooms : BookingError
  resource_property_mismatch : BookingError
  booking_same_resource : BookingError
  booking_same_dates : BookingError
  booking_overlap : BookingError
  surcharge_not_found : BookingError
  -- the primary key or the external_uid of a new row is taken
  unique_violation : BookingError
  -- CHECK (check_out > check_in)
  check_violation : BookingError
  database : OccupancyError → BookingError
  -- an exception of another service
  service : ℕ → BookingError

-- The reason that a row of the history or an event carries.
pub data Reason : Type 0 where
  given : String → Reason
  hold_expired : Reason
  deposit_paid : Reason
  resource_changed : ℕ → ℕ → String → Reason
  dates_changed : (old_in old_out new_in new_out : ℕ) → String → Reason

pub data BookingSource : Type 0 where
  direct walk_in : BookingSource
  channel : String → BookingSource

pub record Booking : Type 0 where
  pub id : ℕ
  pub property_id : ℕ
  pub resource_id : ℕ
  pub guest_id : Option ℕ
  pub booking_code : ℕ
  pub source : BookingSource
  pub external_uid : Option String
  pub channel_mapping_id : Option ℕ
  pub status : BookingStatus
  pub mode : PricingMode
  pub rate_plan_id : Option ℕ
  pub quote_id : Option ℕ
  pub check_in : ℕ
  pub check_out : ℕ
  pub actual_check_in : Option ℕ
  pub actual_check_out : Option ℕ
  pub adults : ℕ
  pub children : ℕ
  pub total_amount_vnd : ℤ
  pub notes : Option String
  pub cancellation_reason : Option Reason
  pub cancelled_at : Option ℕ
  pub cancelled_by : Option ℕ
  pub expires_at : Option ℕ
  pub created_by : Option ℕ
  pub version : ℕ

pub record HistoryRow : Type 0 where
  pub booking_id : ℕ
  pub from_status : Option BookingStatus
  pub to_status : BookingStatus
  pub changed_by : Option ℕ
  pub reason : Option Reason

pub data EventType : Type 0 where
  created confirmed cancelled checked_in checked_out resource_switched rescheduled : EventType

pub record BookingEvent : Type 0 where
  pub event_type : EventType
  pub booking_id : ℕ
  pub property_id : ℕ
  pub reason : Option Reason

pub data SurchargeType : Type 0 where
  surcharge amenity utility : SurchargeType

-- `quantity` is a double, counted in units of 2^-80.
pub record Surcharge : Type 0 where
  pub id : ℕ
  pub booking_id : ℕ
  pub item_type : SurchargeType
  pub description : String
  pub quantity : ℕ
  pub unit_price_vnd : ℤ
  pub amount_vnd : ℤ
  pub created_by : ℕ

pub record Resource : Type 0 where
  pub id : ℕ
  pub property_id : ℕ

-- The tables, `others` being those of the services that bookings.service.ts calls. The tables of
-- resources and of their member rooms are read only.
pub record Store (S : Type 0) : Type 0 where
  pub bookings : ℕ → Option Booking
  -- the ids of the rows of bookings
  pub ids : List ℕ
  pub occupancy : List OccupancyRow
  pub history : List HistoryRow
  pub outbox : List BookingEvent
  pub surcharges : List Surcharge
  pub resources : ℕ → Option Resource
  pub member_rooms : ℕ → List MemberRoom
  pub counter : ℕ
  pub others : S

-- What verifyQuoteForBooking returns of a quote.
pub record VerifiedQuote : Type 0 where
  pub id : ℕ
  pub rate_plan_id : ℕ
  pub total_vnd : ℤ
  pub discount_code_id : Option ℕ

-- The services that take part in a transaction of a booking.
pub record Services (S : Type 0) : Type 0 where
  pub verify_quote :
      S → (quote_id resource_id check_in check_out : ℕ) → PricingMode → Result ℕ VerifiedQuote
  pub redeem_discount : ℕ → S → Result ℕ S
  pub mark_quote_used : (quote_id booking_id : ℕ) → S → Result ℕ S
  pub issue_deposit : Booking → S → Result ℕ S
  pub issue_stay : Booking → List Surcharge → S → Result ℕ S
  pub create_ota_commission : Booking → S → Result ℕ S
  pub create_checkout_tasks : (property_id booking_id : ℕ) → List MemberRoom → S → Result ℕ S
  pub recompute_total :
      S → (rate_plan_id property_id : ℕ) → Booking → (check_in check_out : ℕ) → Result ℕ ℤ

pub data Permission : Type 0 where
  booking_create booking_read booking_update booking_cancel booking_checkin_out
        booking_switch_resource :
      Permission

-- Who calls, and when: `authorized` is authorizeOnProperty for that user.
pub record Caller : Type 0 where
  pub sub : ℕ
  pub is_owner : Bool
  pub authorized : ℕ → Permission → Bool
  pub now : ℕ

abbrev pub Call : Type 0 → Type 0
Call A = Result BookingError A

-- The exceptions of a service and of the database, as those of the call.
unfoldable pub from_service : {A : Type 0} → Result ℕ A → Call A
from_service (ok a) = ok a
from_service (err e) = err (service e)

unfoldable pub from_database : {A : Type 0} → Result OccupancyError A → Call A
from_database (ok a) = ok a
from_database (err e) = err (database e)

abbrev pub put : {V : Type 0} → ℕ → V → (ℕ → Option V) → ℕ → Option V
put k v f j = if j == k then some v else f j

module _ {S : Type 0} where
  -- loadOrThrow(id, user)
  unfoldable pub load_or_throw : Store S → ℕ → Call Booking
  load_or_throw db id = elim (db.bookings id) [ none ↦ err booking_not_found | some b ↦ ok b ]

  -- loadResource(resourceId, user)
  unfoldable pub load_resource : Store S → ℕ → Call Resource
  load_resource db id = elim (db.resources id) [ none ↦ err resource_not_found | some r ↦ ok r ]

  -- tx.bookings.update({ where: { id }, data })
  unfoldable pub update_booking : ℕ → (Booking → Booking) → Store S → Call (Store S)
  update_booking id f db = elim (db.bookings id) [
    | none ↦ err booking_not_found
    | some b ↦ ok (record db { bookings = put id (f b) db.bookings })
  ]

  -- tx.bookings.updateMany({ where: { id, status }, data }), with the error for a count of 0
  unfoldable pub update_if :
      (Booking → Bool) → BookingError → ℕ → (Booking → Booking) → Store S → Call (Store S)
  update_if test e id f db = elim (db.bookings id) [
    | none ↦ err e
    | some b ↦ if test b then ok (record db { bookings = put id (f b) db.bookings }) else err e
  ]

  unfoldable pub add_history : HistoryRow → Store S → Store S
  add_history h db = record db { history = h ∷ db.history }

  -- emitBooking(tx, eventType, bookingId, propertyId, reason)
  unfoldable pub emit_booking : EventType → ℕ → ℕ → Option Reason → Store S → Store S
  emit_booking t id property_id reason db = record db {
    outbox =
        record { event_type = t; booking_id = id; property_id = property_id; reason = reason }
        ∷ db.outbox;
  }

-- authorizeOnProperty(user, propertyId, permission)
unfoldable pub authorize : Caller → ℕ → Permission → Call (Unit {0})
authorize c property_id p = throw_if (if c.authorized property_id p then false else true) forbidden

-- assertTransition(from, to)
unfoldable pub assert_transition : BookingStatus → BookingStatus → Call (Unit {0})
assert_transition from to =
    throw_if (if can_transition from to then false else true) booking_invalid_status
