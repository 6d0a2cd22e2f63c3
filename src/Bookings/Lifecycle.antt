-- ===== src/Bookings/Lifecycle.antt =====
-- The calls of bookings.service.ts that change the status or the details of a booking.
use Prim.Native.String.{String}
use pms_homestay.Prelude.{
  ℕ, ◌+◌, ◌*◌, Bool, true, false, Option, none, some, ◌==◌, keep, if◌then◌else◌, ok, ◌>>=◌, ◌>>◌,
  throw_if,
}
use pms_homestay.Occupancy.{delete_for_booking}
use pms_homestay.Engine.Types.{or_else}
use pms_homestay.Bookings.Status.{
  BookingStatus, pending, confirmed, checked_in, checked_out, cancelled, status_eq, is_terminal,
}
use pms_homestay.Bookings.Types.{
  Booking, Store, Services, Caller, Call, Reason, given, deposit_paid, EventType, booking_update,
  booking_cancel, booking_checkin_out, booking_invalid_status, booking_invalid_status_409,
  version_conflict, forbidden, from_service, put, load_or_throw, update_booking, update_if,
  add_history, emit_booking, authorize, assert_transition,
}
use pms_homestay.Bookings.Create.{deposit_if_pending}

pub record UpdateBookingRequest : Type 0 where
  pub guest_id : Option ℕ
  pub adults : Option ℕ
  pub children : Option ℕ
  pub notes : Option String

abbrev pub or_keep : {A : Type 0} → Option A → Option A → Option A
or_keep (some a) old = some a
or_keep none old = old

unfoldable pub with_details : UpdateBookingRequest → Booking → Booking
with_details dto b = record b {
  guest_id = or_keep dto.guest_id b.guest_id;
  adults = or_else dto.adults b.adults;
  children = or_else dto.children b.children;
  notes = or_keep dto.notes b.notes;
  version = b.version + 1;
}

unfoldable pub with_cancellation : Reason → ℕ → Option ℕ → Booking → Booking
with_cancellation reason now by b = record b {
  status = cancelled;
  cancellation_reason = some reason;
  cancelled_at = some now;
  cancelled_by = by;
  version = b.version + 1;
}

unfoldable pub with_status : BookingStatus → Option ℕ → Booking → Booking
with_status status expires_at b = record b {
  status = status;
  expires_at = expires_at;
  version = b.version + 1;
}

unfoldable pub with_check_in : ℕ → Booking → Booking
with_check_in now b = record b {
  status = checked_in;
  actual_check_in = some now;
  version = b.version + 1;
}

unfoldable pub with_check_out : ℕ → Booking → Booking
with_check_out now b = record b {
  status = checked_out;
  actual_check_out = some now;
  version = b.version + 1;
}

abbrev pub deposit_deadline_ms : ℕ
deposit_deadline_ms = 24 * 3_600_000

module _ {S : Type 0} where
  unfoldable pub free_rooms : ℕ → Store S → Store S
  free_rooms id db = record db { occupancy = delete_for_booking id db.occupancy }

  unfoldable pub note_change :
      ℕ → BookingStatus → BookingStatus → Option ℕ → Option Reason → Store S → Store S
  note_change id from to by reason = add_history (record {
    booking_id = id;
    from_status = some from;
    to_status = to;
    changed_by = by;
    reason = reason;
  })

  -- The transaction of update(), and update(id, expectedVersion, dto, user).
  unfoldable pub update_tx : ℕ → ℕ → UpdateBookingRequest → Store S → Call (Store S)
  update_tx id expected_version dto db =
      update_if (λ r. r.version == expected_version) version_conflict id (with_details dto) db

  unfoldable pub update : ℕ → ℕ → UpdateBookingRequest → Caller → Store S → Call (Store S)
  update id expected_version dto c db = do
    b ← load_or_throw db id
    authorize c b.property_id booking_update
    throw_if (is_terminal b.status) booking_invalid_status
    update_tx id expected_version dto db

  -- The transaction of cancel(), for the booking that was loaded before it.
  unfoldable pub cancel_tx : ℕ → String → Caller → Booking → Store S → Call (Store S)
  cancel_tx id reason c loaded db = do
    db₁ ← update_booking id (with_cancellation (given reason) c.now (some c.sub)) db
    ok (
        emit_booking EventType.cancelled id loaded.property_id (some (given reason)) (
          note_change id loaded.status cancelled (some c.sub) (some (given reason))
            (free_rooms id db₁)))

  -- cancel(id, dto, user)
  unfoldable pub cancel : ℕ → String → Caller → Store S → Call (Store S)
  cancel id reason c db = do
    b ← load_or_throw db id
    authorize c b.property_id booking_cancel
    assert_transition b.status cancelled
    cancel_tx id reason c b db

  -- cancelFromIcalTx(tx, input)
  unfoldable pub cancel_from_ical_tx : ℕ → ℕ → String → ℕ → Store S → Call (Store S)
  cancel_from_ical_tx id property_id reason now db = do
    db₁ ← update_booking id (λ b. with_cancellation (given reason) now b.cancelled_by b) db
    ok (
        emit_booking EventType.cancelled id property_id (some (given reason)) (
          add_history
            (record {
              booking_id = id;
              from_status = none;
              to_status = cancelled;
              changed_by = none;
              reason = none;
            })
            (free_rooms id db₁)))

  -- confirmFromDepositPaid(tx, bookingId, tenantId, actorUserId)
  unfoldable pub confirm_from_deposit_paid : ℕ → Option ℕ → Store S → Store S
  confirm_from_deposit_paid id actor db = elim (db.bookings id) [
    | none ↦ db
    | some b ↦
        if status_eq b.status pending
        then emit_booking EventType.confirmed id b.property_id none (
            note_change id pending confirmed actor (some deposit_paid)
              (record db { bookings = put id (with_status confirmed none b) db.bookings }))
        else db
  ]

  -- The transaction of checkIn(), and checkIn(id, user).
  unfoldable pub check_in_tx : ℕ → Caller → Booking → Store S → Call (Store S)
  check_in_tx id c loaded db = do
    db₁ ←
        update_if (λ b. status_eq b.status confirmed) booking_invalid_status_409 id
          (with_check_in c.now) db
    ok (
        emit_booking EventType.checked_in id loaded.property_id none
          (note_change id confirmed checked_in (some c.sub) none db₁))

  unfoldable pub check_in : ℕ → Caller → Store S → Call (Store S)
  check_in id c db = do
    b ← load_or_throw db id
    authorize c b.property_id booking_checkin_out
    assert_transition b.status checked_in
    check_in_tx id c b db

unfoldable pub confirm_target : Option Bool → BookingStatus
confirm_target (some true) = confirmed
confirm_target _ = pending

unfoldable pub deposit_deadline : BookingStatus → ℕ → Option ℕ
deposit_deadline pending now = some (now + deposit_deadline_ms)
deposit_deadline _ now = none

unfoldable pub is_forced : Option Bool → Bool
is_forced (some true) = true
is_forced _ = false

module _ {S : Type 0} where
  unfoldable pub emit_if_confirmed : BookingStatus → ℕ → ℕ → Store S → Store S
  emit_if_confirmed confirmed id property_id db =
      emit_booking EventType.confirmed id property_id none db
  emit_if_confirmed _ id property_id db = db

module _ {S : Type 0} (sv : Services S) where
  -- The transaction of confirm(), and confirm(id, dto, user).
  unfoldable pub confirm_tx : ℕ → BookingStatus → Caller → Booking → Store S → Call (Store S)
  confirm_tx id target c loaded db = do
    db₁ ←
        update_if (λ b. status_eq b.status loaded.status) booking_invalid_status_409 id
          (with_status target (deposit_deadline target c.now)) db
    others ← deposit_if_pending sv target loaded db₁.others
    ok (
        emit_if_confirmed target id loaded.property_id
          (note_change id loaded.status target (some c.sub) none (record db₁ { others = others })))

  unfoldable pub confirm : ℕ → Option Bool → Caller → Store S → Call (Store S)
  confirm id force c db = do
    b ← load_or_throw db id
    authorize c b.property_id booking_update
    throw_if (if is_forced force then (if c.is_owner then false else true) else false) forbidden
    assert_transition b.status (confirm_target force)
    confirm_tx id (confirm_target force) c b db

  -- The transaction of checkOut(), and checkOut(id, user).
  unfoldable pub check_out_tx : ℕ → Caller → Booking → Store S → Call (Store S)
  check_out_tx id c loaded db = do
    db₁ ←
        update_if (λ b. status_eq b.status checked_in) booking_invalid_status_409 id
          (with_check_out c.now) db
    let db₂ = note_change id checked_in checked_out (some c.sub) none (free_rooms id db₁)
    let extras = keep (λ s. s.booking_id == loaded.id) db₂.surcharges
    billed ← from_service (sv.issue_stay loaded extras db₂.others)
    paid ← from_service (sv.create_ota_commission loaded billed)
    cleaned ←
        from_service (
          sv.create_checkout_tasks loaded.property_id id (db₂.member_rooms loaded.resource_id) paid)
    ok (
        emit_booking EventType.checked_out id loaded.property_id none
          (record db₂ { others = cleaned }))

  unfoldable pub check_out : ℕ → Caller → Store S → Call (Store S)
  check_out id c db = do
    b ← load_or_throw db id
    authorize c b.property_id booking_checkin_out
    assert_transition b.status checked_out
    check_out_tx id c b db
