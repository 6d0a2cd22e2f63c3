-- ===== src/RoomBlocks.antt =====
-- apps/api/src/modules/rooms/room-blocks.service.ts: rooms that are kept free for works or for the
-- owner. The tables are those of one tenant.
pub mod Presence
mod Tests
use Prim.Native.String.{String}
use pms_homestay.Prelude.{
  ℕ, ◌+◌, Bool, true, false, not, Option, none, some, List, [], ◌∷◌, ◌==◌, if◌then◌else◌, Result,
  ok, err, ◌>>=◌, ◌>>◌, throw_if, keep, ltb,
}
use pms_homestay.Occupancy.{
  OccupancyRow, OccupancyError, find_overlaps, insert_for_block, delete_for_block,
}

pub record RoomBlock : Type 0 where
  pub id : ℕ
  pub room_id : ℕ
  pub start_at : ℕ
  pub end_at : ℕ
  pub reason : String
  pub created_by : ℕ

pub record CreateRoomBlockRequest : Type 0 where
  pub room_id : ℕ
  pub start_at : ℕ
  pub end_at : ℕ
  pub reason : String

pub data RoomBlockEvent : Type 0 where
  room_blocked room_unblocked : (property_id room_id block_id : ℕ) → RoomBlockEvent

pub data RoomBlockError : Type 0 where
  room_not_found block_not_found block_forbidden block_overlap block_id_taken
        block_check_violation :
      RoomBlockError
  block_database : OccupancyError → RoomBlockError

pub data BlockPermission : Type 0 where
  room_crud property_read : BlockPermission

-- Who calls: `authorized` is authorizeOnProperty for that user.
pub record BlockCaller : Type 0 where
  pub sub : ℕ
  pub authorized : ℕ → BlockPermission → Bool

-- `room_property` is the property of a room; the table of rooms is read only.
pub record BlockStore : Type 0 where
  pub room_property : ℕ → Option ℕ
  pub blocks : ℕ → Option RoomBlock
  pub occupancy : List OccupancyRow
  pub events : List RoomBlockEvent

abbrev pub BlockCall : Type 0 → Type 0
BlockCall A = Result RoomBlockError A

unfoldable pub from_table : {A : Type 0} → Result OccupancyError A → BlockCall A
from_table (ok a) = ok a
from_table (err e) = err (block_database e)

-- loadRoomOrThrow(roomId, user): the property of the room
unfoldable pub load_room_or_throw : BlockStore → ℕ → BlockCall ℕ
load_room_or_throw db room = elim (db.room_property room) [
  | none ↦ err room_not_found
  | some p ↦ ok p
]

unfoldable pub load_block : BlockStore → ℕ → BlockCall RoomBlock
load_block db id = elim (db.blocks id) [ none ↦ err block_not_found | some b ↦ ok b ]

unfoldable pub allow : BlockCaller → ℕ → BlockPermission → BlockCall (Unit {0})
allow c property p = throw_if (if c.authorized property p then false else true) block_forbidden

abbrev pub store_block : ℕ → Option RoomBlock → (ℕ → Option RoomBlock) → ℕ → Option RoomBlock
store_block k v f j = if j == k then v else f j

abbrev pub is_some : {A : Type 0} → Option A → Bool
is_some none = false
is_some (some _) = true

abbrev pub any : {A : Type 0} → List A → Bool
any [] = false
any (_ ∷ _) = true

unfoldable pub new_block : CreateRoomBlockRequest → ℕ → ℕ → RoomBlock
new_block dto id sub = record {
  id = id;
  room_id = dto.room_id;
  start_at = dto.start_at;
  end_at = dto.end_at;
  reason = dto.reason;
  created_by = sub;
}

-- create(dto, user): `id` is the new primary key, which the database refuses if it is taken, as it
-- does a span that is not positive.
unfoldable pub create_block :
    CreateRoomBlockRequest → BlockCaller → ℕ → BlockStore → BlockCall BlockStore
create_block dto c id db = do
  property ← load_room_or_throw db dto.room_id
  allow c property room_crud
  conflicts ← from_table (find_overlaps db.occupancy (dto.room_id ∷ []) dto.start_at dto.end_at)
  throw_if (any conflicts) block_overlap
  throw_if (not (ltb dto.start_at dto.end_at)) block_check_violation
  throw_if (is_some (db.blocks id)) block_id_taken
  rows ← from_table (insert_for_block id dto.room_id dto.start_at dto.end_at db.occupancy)
  ok (record db {
    blocks = store_block id (some (new_block dto id c.sub)) db.blocks;
    occupancy = rows;
    events = room_blocked property dto.room_id id ∷ db.events;
  })

-- remove(id, user)
unfoldable pub remove_block : ℕ → BlockCaller → BlockStore → BlockCall BlockStore
remove_block id c db = do
  block ← load_block db id
  property ← load_room_or_throw db block.room_id
  allow c property room_crud
  ok (record db {
    blocks = store_block id none db.blocks;
    occupancy = delete_for_block id db.occupancy;
    events = room_unblocked property block.room_id id ∷ db.events;
  })

-- A call that throws changes nothing.
pub data BlockRequest : Type 0 where
  to_block : CreateRoomBlockRequest → BlockCaller → ℕ → BlockRequest
  to_unblock : ℕ → BlockCaller → BlockRequest

unfoldable pub handle_block : BlockRequest → BlockStore → BlockCall BlockStore
handle_block (to_block dto c id) db = create_block dto c id db
handle_block (to_unblock id c) db = remove_block id c db

abbrev pub settle : BlockStore → BlockCall BlockStore → BlockStore
settle db (ok d) = d
settle db (err e) = db

unfoldable pub handle_blocks : List BlockRequest → BlockStore → BlockStore
unfolding handle_block
handle_blocks [] db = db
handle_blocks (r ∷ rs) db = handle_blocks rs (settle db (handle_block r db))
