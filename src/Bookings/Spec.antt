-- ===== src/Bookings/Spec.antt =====
-- What a call may do to the bookings and to the rows of room_occupancy: the contract of the bookings
-- service, without its guards, its history and its events.
pub mod Changes
pub mod Moves
pub mod Expiry
use pms_homestay.Prelude.{ℕ, ◌<◌, ◌≡◌, Bool, true, false, ◌⊎◌, Option, none, some, List, Result, ok}
use pms_homestay.Occupancy.{MemberRoom, OccupancyRow, insert_for_booking, delete_for_booking}
use pms_homestay.Bookings.Status.{BookingStatus, can_transition, is_terminal}
use pms_homestay.Bookings.Types.{Booking, Store, put}

-- The rows of the booking `id` when its row goes from `b` to `b'`.
pub data RoomsChange (members : ℕ → List MemberRoom) (id : ℕ) (b b' : Booking)
    (rows rows' : List OccupancyRow) : Type 0 where
  rooms_kept :
      is_terminal b'.status ≡ is_terminal b.status
      → b'.resource_id ≡ b.resource_id
      → b'.check_in ≡ b.check_in
      → b'.check_out ≡ b.check_out
      → rows' ≡ rows
      → RoomsChange members id b b' rows rows'
  rooms_freed :
      is_terminal b'.status ≡ true
      → rows' ≡ delete_for_booking id rows
      → RoomsChange members id b b' rows rows'
  rooms_moved :
      is_terminal b'.status ≡ false
      → insert_for_booking id
          (members b'.resource_id)
          b'.check_in
          b'.check_out
          (delete_for_booking id rows)
        ≡ ok rows'
      → RoomsChange members id b b' rows rows'

-- A booking stays in its status or takes a step of the state machine.
abbrev pub StatusStep : BookingStatus → BookingStatus → Type 0
StatusStep s t = (t ≡ s) ⊎ (can_transition s t ≡ true)

module _ {S : Type 0} where
  pub data Effect (db d : Store S) : Type 0 where
    idle :
        d.bookings ≡ db.bookings
        → d.occupancy ≡ db.occupancy
        → d.member_rooms ≡ db.member_rooms
        → Effect db d
    opened :
        (b : Booking)
        → db.bookings b.id ≡ none
        → is_terminal b.status ≡ false
        → d.bookings ≡ put b.id b db.bookings
        → insert_for_booking b.id
            (db.member_rooms b.resource_id)
            b.check_in
            b.check_out
            db.occupancy
          ≡ ok d.occupancy
        → d.member_rooms ≡ db.member_rooms
        → Effect db d
    changed :
        (id : ℕ) (b b' : Booking)
        → db.bookings id ≡ some b
        → StatusStep b.status b'.status
        → d.bookings ≡ put id b' db.bookings
        → RoomsChange db.member_rooms id b b' db.occupancy d.occupancy
        → d.member_rooms ≡ db.member_rooms
        → Effect db d

  pub data Effects (db : Store S) : Store S → Type 0 where
    start : Effects db db
    after : {d d' : Store S} → Effects db d → Effect d d' → Effects db d'
