-- ===== src/Bookings/Create.antt =====
-- create and createFromIcalTx of bookings.service.ts. Advisory locks only order transactions, and
-- a function of the store stands for a transaction that has its turn.
use Prim.Native.String.{String, compare}
use text.Mathlib.Text.{is_eq}
use pms_homestay.Prelude.{
  ℕ, ◌+◌, Bool, true, false, Option, none, some, List, [], ◌∷◌, map, if◌then◌else◌, ok, ◌>>=◌, ◌>>◌,
  throw_if, not, ltb, ◌==◌, ◌&&◌, ◌||◌,
}
use pms_homestay.Prelude.Int.{pos}
use pms_homestay.Occupancy.{MemberRoom, find_overlaps, insert_for_booking}
use pms_homestay.Engine.Types.{PricingMode, daily, or_else}
use pms_homestay.Bookings.Status.{BookingStatus, pending, confirmed}
use pms_homestay.Bookings.Types.{
  Booking, BookingSource, direct, channel, Store, Services, VerifiedQuote, Resource, Caller, Call,
  EventType, booking_create, resource_no_rooms, booking_overlap, unique_violation, check_violation,
  from_service, from_database, put, load_resource, add_history, emit_booking, authorize,
}

pub record CreateBookingRequest : Type 0 where
  pub resource_id : ℕ
  pub quote_id : ℕ
  pub guest_id : Option ℕ
  pub mode : PricingMode
  pub check_in : ℕ
  pub check_out : ℕ
  pub adults : Option ℕ
  pub children : Option ℕ
  pub source : Option BookingSource
  pub hold : Option Bool
  pub notes : Option String

abbrev pub hold_ttl_ms : ℕ
hold_ttl_ms = 600_000

abbrev pub is_empty : {A : Type 0} → List A → Bool
is_empty [] = true
is_empty (_ ∷ _) = false

abbrev pub is_taken : {A : Type 0} → Option A → Bool
is_taken none = false
is_taken (some _) = true

unfoldable pub initial_status : Option Bool → BookingStatus
initial_status (some true) = BookingStatus.hold
initial_status _ = pending

unfoldable pub hold_expiry : Option Bool → ℕ → Option ℕ
hold_expiry (some true) now = some (now + hold_ttl_ms)
hold_expiry _ now = none

-- The row that `tx.bookings.create` of create() writes.
unfoldable pub new_booking :
    CreateBookingRequest → Caller → ℕ → Resource → VerifiedQuote → ℕ → Booking
new_booking dto c id resource quote code = record {
  id = id;
  property_id = resource.property_id;
  resource_id = resource.id;
  guest_id = dto.guest_id;
  booking_code = code;
  source = or_else dto.source direct;
  external_uid = none;
  channel_mapping_id = none;
  status = initial_status dto.hold;
  mode = dto.mode;
  rate_plan_id = some quote.rate_plan_id;
  quote_id = some quote.id;
  check_in = dto.check_in;
  check_out = dto.check_out;
  actual_check_in = none;
  actual_check_out = none;
  adults = or_else dto.adults 1;
  children = or_else dto.children 0;
  total_amount_vnd = quote.total_vnd;
  notes = dto.notes;
  cancellation_reason = none;
  cancelled_at = none;
  cancelled_by = none;
  expires_at = hold_expiry dto.hold c.now;
  created_by = some c.sub;
  version = 0;
}

-- uq_bookings_external_uid, on (channel_mapping_id, external_uid) where there is an external_uid
abbrev pub same_mapping : Option ℕ → Option ℕ → Bool
same_mapping (some i) (some j) = i == j
same_mapping _ _ = false

abbrev pub same_external_uid : Option String → Option String → Bool
same_external_uid (some s) (some t) = is_eq (compare s t)
same_external_uid _ _ = false

unfoldable pub same_uid : Booking → Option Booking → Bool
same_uid b none = false
same_uid b (some r) =
    same_mapping b.channel_mapping_id r.channel_mapping_id
    && same_external_uid b.external_uid r.external_uid

unfoldable pub uid_is_taken : Booking → List ℕ → (ℕ → Option Booking) → Bool
unfolding same_uid
uid_is_taken b [] rows = false
uid_is_taken b (i ∷ is) rows = same_uid b (rows i) || uid_is_taken b is rows

module _ {S : Type 0} where
  -- The number, the row of bookings and the rows of room_occupancy of a new booking; the primary
  -- key is a fresh UUID, and the database refuses one that is taken. The booking code is a fresh
  -- number of the counter, which UNIQUE (tenant_id, booking_code) never refuses.
  unfoldable pub insert_booking : Booking → List MemberRoom → Store S → Call (Store S)
  insert_booking b members db = do
    throw_if (not (ltb b.check_in b.check_out)) check_violation
    throw_if (is_taken (db.bookings b.id)) unique_violation
    throw_if (uid_is_taken b db.ids db.bookings) unique_violation
    rows ← from_database (insert_for_booking b.id members b.check_in b.check_out db.occupancy)
    ok (record db {
      bookings = put b.id b db.bookings;
      ids = b.id ∷ db.ids;
      occupancy = rows;
      counter = db.counter + 1;
    })

  -- `SELECT` of the overlaps, and the error if there are any
  unfoldable pub check_overlaps : List MemberRoom → ℕ → ℕ → Store S → Call (Unit {0})
  check_overlaps members check_in check_out db = do
    conflicts ←
        from_database (find_overlaps db.occupancy (map (λ m. m.room_id) members) check_in check_out)
    throw_if (if is_empty conflicts then false else true) booking_overlap

  unfoldable pub created_history : Booking → Option ℕ → Store S → Store S
  created_history b by = add_history (record {
    booking_id = b.id;
    from_status = none;
    to_status = b.status;
    changed_by = by;
    reason = none;
  })

module _ {S : Type 0} (sv : Services S) where
  unfoldable pub redeem : Option ℕ → S → Call S
  redeem none others = ok others
  redeem (some code) others = from_service (sv.redeem_discount code others)

  -- `if (status === 'PENDING') await this.invoices.issueDepositForBooking(tx, booking)`
  unfoldable pub deposit_if_pending : BookingStatus → Booking → S → Call S
  deposit_if_pending pending b others = from_service (sv.issue_deposit b others)
  deposit_if_pending _ b others = ok others

  -- The transaction of create(): `id` is the new primary key.
  unfoldable pub create_tx : CreateBookingRequest → Caller → ℕ → Resource → Store S → Call (Store S)
  create_tx dto c id resource db = do
    quote ←
        from_service
          (sv.verify_quote db.others dto.quote_id resource.id dto.check_in dto.check_out dto.mode)
    redeemed ← redeem quote.discount_code_id db.others
    let members = db.member_rooms resource.id
    throw_if (is_empty members) resource_no_rooms
    check_overlaps members dto.check_in dto.check_out db
    let b = new_booking dto c id resource quote (db.counter + 1)
    db₁ ← insert_booking b members db
    used ← from_service (sv.mark_quote_used quote.id id redeemed)
    others ← deposit_if_pending b.status b used
    ok (
        emit_booking EventType.created id b.property_id none
          (created_history b (some c.sub) (record db₁ { others = others })))

  -- create(dto, user)
  unfoldable pub create : CreateBookingRequest → Caller → ℕ → Store S → Call (Store S)
  create dto c id db = do
    resource ← load_resource db dto.resource_id
    authorize c resource.property_id booking_create
    create_tx dto c id resource db

-- `summary` is `none` where the text is empty.
pub record IcalInput : Type 0 where
  pub property_id : ℕ
  pub resource_id : ℕ
  pub channel_mapping_id : ℕ
  pub source : String
  pub external_uid : String
  pub summary : Option String
  pub check_in : ℕ
  pub check_out : ℕ

-- The row that createFromIcalTx writes.
unfoldable pub ical_booking : IcalInput → ℕ → ℕ → Booking
ical_booking input id code = record {
  id = id;
  property_id = input.property_id;
  resource_id = input.resource_id;
  guest_id = none;
  booking_code = code;
  source = channel input.source;
  external_uid = some input.external_uid;
  channel_mapping_id = some input.channel_mapping_id;
  status = confirmed;
  mode = daily;
  rate_plan_id = none;
  quote_id = none;
  check_in = input.check_in;
  check_out = input.check_out;
  actual_check_in = none;
  actual_check_out = none;
  adults = 1;
  children = 0;
  total_amount_vnd = pos 0;
  notes = input.summary;
  cancellation_reason = none;
  cancelled_at = none;
  cancelled_by = none;
  expires_at = none;
  created_by = none;
  version = 0;
}

module _ {S : Type 0} where
  -- createFromIcalTx(tx, input): only the constraint of the table stands against an overlap.
  unfoldable pub create_from_ical_tx : IcalInput → ℕ → Store S → Call (Store S)
  create_from_ical_tx input id db = do
    let members = db.member_rooms input.resource_id
    throw_if (is_empty members) resource_no_rooms
    let b = ical_booking input id (db.counter + 1)
    db₁ ← insert_booking b members db
    ok (emit_booking EventType.created id b.property_id none (created_history b none db₁))
