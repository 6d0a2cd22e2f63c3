-- ===== src/Occupancy.antt =====
-- apps/api/src/modules/occupancy/occupancy.service.ts over the table room_occupancy of
-- infra/migrations-sql/0004_property_room_resource.sql, for one tenant: a row stands for a span of
-- time in which a room is blocked. An instant is the number of milliseconds since the earliest
-- instant that a Date holds, so a span never starts below 0.
pub mod NoOverlap
pub mod Presence
use pms_homestay.Prelude.{
  ℕ, ◌+◌, ◌-◌, ◌*◌, Bool, true, false, not, ◌&&◌, ◌||◌, Option, none, some, List, [], ◌∷◌, ltb,
  ◌==◌, if◌then◌else◌, keep, includes, Result, ok, err, ◌>>=◌, map,
}

pub record MemberRoom : Type 0 where
  pub room_id : ℕ
  pub buffer_minutes : ℕ

-- Exactly one of booking_id and block_id is set.
pub data RowSource : Type 0 where
  of_booking of_block : ℕ → RowSource

pub record OccupancyRow : Type 0 where
  pub room_id : ℕ
  pub source : RowSource
  pub start_at : ℕ
  pub end_at : ℕ

-- What the database refuses: a range that ends before it starts, and the constraint
-- room_occupancy_no_overlap (23P01).
pub data OccupancyError : Type 0 where
  invalid_range exclusion_violation : OccupancyError

-- `&&` of two half-open ranges: an empty range meets nothing.
unfoldable pub ranges_meet : ℕ → ℕ → ℕ → ℕ → Bool
ranges_meet s e s' e' = ltb s e && ltb s' e' && ltb s e' && ltb s' e

unfoldable pub rows_conflict : OccupancyRow → OccupancyRow → Bool
unfolding ranges_meet
rows_conflict a b = a.room_id == b.room_id && ranges_meet a.start_at a.end_at b.start_at b.end_at

-- findOverlaps(tx, roomIds, from, to): the rows, of which the callers only ask whether there are any.
unfoldable pub find_overlaps :
    List OccupancyRow → List ℕ → ℕ → ℕ → Result OccupancyError (List OccupancyRow)
find_overlaps rows [] from to = ok []
find_overlaps rows (i ∷ is) from to =
    if ltb to from
    then err invalid_range
    else ok
        (keep (λ r. includes (i ∷ is) r.room_id && ranges_meet r.start_at r.end_at from to) rows)

unfoldable pub has_conflict : OccupancyRow → List OccupancyRow → Bool
has_conflict row [] = false
has_conflict row (r ∷ rs) = rows_conflict row r || has_conflict row rs

-- INSERT INTO room_occupancy, under the EXCLUDE constraint.
unfoldable pub insert_row :
    OccupancyRow → List OccupancyRow → Result OccupancyError (List OccupancyRow)
insert_row row rows =
    if ltb row.end_at row.start_at
    then err invalid_range
    else if has_conflict row rows
    then err exclusion_violation
    else ok (row ∷ rows)

-- The row of a member room, with the buffer of that room on both sides.
unfoldable pub booking_row : ℕ → MemberRoom → ℕ → ℕ → OccupancyRow
booking_row booking_id m check_in check_out = record {
  room_id = m.room_id;
  source = of_booking booking_id;
  start_at = check_in - m.buffer_minutes * 60_000;
  end_at = check_out + m.buffer_minutes * 60_000;
}

-- insertForBooking(tx, p)
unfoldable pub insert_for_booking :
    ℕ → List MemberRoom → ℕ → ℕ → List OccupancyRow → Result OccupancyError (List OccupancyRow)
insert_for_booking booking_id [] check_in check_out rows = ok rows
insert_for_booking booking_id (m ∷ ms) check_in check_out rows =
    insert_row (booking_row booking_id m check_in check_out) rows
    >>= insert_for_booking booking_id ms check_in check_out

-- insertForBlock(tx, p)
unfoldable pub insert_for_block :
    ℕ → ℕ → ℕ → ℕ → List OccupancyRow → Result OccupancyError (List OccupancyRow)
insert_for_block block_id room_id start_at end_at =
    insert_row (record {
      room_id = room_id;
      source = of_block block_id;
      start_at = start_at;
      end_at = end_at;
    })

unfoldable pub is_of_booking : ℕ → RowSource → Bool
is_of_booking i (of_booking j) = j == i
is_of_booking i (of_block j) = false

unfoldable pub is_of_block : ℕ → RowSource → Bool
is_of_block i (of_block j) = j == i
is_of_block i (of_booking j) = false

-- deleteForBooking(tx, bookingId)
unfoldable pub delete_for_booking : ℕ → List OccupancyRow → List OccupancyRow
delete_for_booking booking_id = keep (λ r. not (is_of_booking booking_id r.source))

-- deleteForBlock(tx, blockId)
unfoldable pub delete_for_block : ℕ → List OccupancyRow → List OccupancyRow
delete_for_block block_id = keep (λ r. not (is_of_block block_id r.source))
