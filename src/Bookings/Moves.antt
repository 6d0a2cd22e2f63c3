-- ===== src/Bookings/Moves.antt =====
-- switchResource and reschedule of bookings.service.ts: the rooms or the dates of a booking change,
-- its status does not.
use Prim.Native.String.{String}
use pms_homestay.Prelude.{
  ℕ, ◌+◌, true, false, ◌&&◌, ◌||◌, Option, none, some, List, ◌==◌, if◌then◌else◌, ok, ◌>>=◌, ◌>>◌,
  throw_if,
}
use pms_homestay.Prelude.Int.{ℤ}
use pms_homestay.Occupancy.{MemberRoom, insert_for_booking}
use pms_homestay.Bookings.Status.{checked_in, status_eq, is_terminal}
use pms_homestay.Bookings.Types.{
  Booking, Store, Services, Caller, Call, Resource, resource_changed, dates_changed, EventType,
  booking_update, booking_switch_resource, booking_invalid_status, booking_same_resource,
  booking_same_dates, resource_no_rooms, resource_property_mismatch, from_service, from_database,
  load_or_throw, load_resource, update_booking, emit_booking, authorize,
}
use pms_homestay.Bookings.Create.{check_overlaps, is_empty}
use pms_homestay.Bookings.Lifecycle.{free_rooms, note_change}

unfoldable pub with_resource : ℕ → Booking → Booking
with_resource resource_id b = record b { resource_id = resource_id; version = b.version + 1 }

unfoldable pub with_dates : ℕ → ℕ → ℤ → Booking → Booking
with_dates check_in check_out total b = record b {
  check_in = check_in;
  check_out = check_out;
  total_amount_vnd = total;
  version = b.version + 1;
}

module _ {S : Type 0} where
  -- The rows of a booking anew: the old ones are dropped first, so that they are no overlap.
  unfoldable pub replace_rows : ℕ → List MemberRoom → ℕ → ℕ → Store S → Call (Store S)
  replace_rows id members check_in check_out db = do
    let freed = free_rooms id db
    check_overlaps members check_in check_out freed
    rows ← from_database (insert_for_booking id members check_in check_out freed.occupancy)
    ok (record freed { occupancy = rows })

module _ {S : Type 0} (sv : Services S) where
  -- The transaction of switchResource(), for the booking that was loaded before it.
  unfoldable pub switch_resource_tx :
      ℕ → String → Caller → Booking → Resource → Store S → Call (Store S)
  switch_resource_tx id reason c loaded resource db = do
    let old_members = db.member_rooms loaded.resource_id
    let new_members = db.member_rooms resource.id
    throw_if (is_empty new_members) resource_no_rooms
    db₁ ← replace_rows id new_members loaded.check_in loaded.check_out db
    db₂ ← update_booking id (with_resource resource.id) db₁
    cleaned ← from_service (sv.create_checkout_tasks loaded.property_id id old_members db₂.others)
    ok (
        emit_booking EventType.resource_switched id loaded.property_id none (
          note_change id loaded.status loaded.status (some c.sub)
            (some (resource_changed loaded.resource_id resource.id reason))
            (record db₂ { others = cleaned })))

  -- switchResource(id, dto, user)
  unfoldable pub switch_resource : ℕ → ℕ → String → Caller → Store S → Call (Store S)
  switch_resource id new_resource_id reason c db = do
    b ← load_or_throw db id
    authorize c b.property_id booking_switch_resource
    throw_if (is_terminal b.status) booking_invalid_status
    throw_if (new_resource_id == b.resource_id) booking_same_resource
    resource ← load_resource db new_resource_id
    throw_if (if resource.property_id == b.property_id then false else true)
        resource_property_mismatch
    switch_resource_tx id reason c b resource db

  -- The price of the new dates, where the booking has a rate plan.
  unfoldable pub new_total : Option ℕ → Booking → ℕ → ℕ → S → Call ℤ
  new_total none loaded check_in check_out others = ok loaded.total_amount_vnd
  new_total (some plan) loaded check_in check_out others =
      from_service (sv.recompute_total others plan loaded.property_id loaded check_in check_out)

  -- The transaction of reschedule(), for the booking that was loaded before it.
  unfoldable pub reschedule_tx : ℕ → ℕ → ℕ → String → Caller → Booking → Store S → Call (Store S)
  reschedule_tx id check_in check_out reason c loaded db = do
    db₁ ← replace_rows id (db.member_rooms loaded.resource_id) check_in check_out db
    total ← new_total loaded.rate_plan_id loaded check_in check_out db₁.others
    db₂ ← update_booking id (with_dates check_in check_out total) db₁
    ok (
        emit_booking EventType.rescheduled id loaded.property_id none (
          note_change id loaded.status loaded.status (some c.sub)
            (some (dates_changed loaded.check_in loaded.check_out check_in check_out reason)) db₂))

  -- reschedule(id, dto, user)
  unfoldable pub reschedule : ℕ → ℕ → ℕ → String → Caller → Store S → Call (Store S)
  reschedule id check_in check_out reason c db = do
    b ← load_or_throw db id
    authorize c b.property_id booking_update
    throw_if (is_terminal b.status || status_eq b.status checked_in) booking_invalid_status
    throw_if (check_in == b.check_in && check_out == b.check_out) booking_same_dates
    reschedule_tx id check_in check_out reason c b db
