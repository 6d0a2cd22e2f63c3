-- ===== src/RoomBlocks/Tests.antt =====
-- Two blocks of room 11 that clash, and one that follows.
use pms_homestay.Prelude.{ℕ, ◌≡◌, refl, true, none, some, List, [], ◌∷◌}
use pms_homestay.Occupancy.{
  find_overlaps, insert_for_block, insert_row, has_conflict, ranges_meet, rows_conflict,
  delete_for_block, is_of_block,
}
use pms_homestay.RoomBlocks.{
  CreateRoomBlockRequest, BlockCaller, BlockStore, BlockRequest, to_block, to_unblock, handle_block,
  handle_blocks, create_block, remove_block, load_room_or_throw, load_block, allow, from_table,
  new_block,
}
use pms_homestay.RoomBlocks.Presence.{BlocksPresent, block_row, handle_blocks-Present}

abbrev manager : BlockCaller
manager = record { sub = 4; authorized = λ p q. true }

abbrev free_house : BlockStore
free_house = record { room_property = λ r. some 3; blocks = λ i. none; occupancy = []; events = [] }

abbrev works : ℕ → ℕ → CreateRoomBlockRequest
works start end = record { room_id = 11; start_at = start; end_at = end; reason = "paint" }

abbrev blocks_of_day : List BlockRequest
blocks_of_day =
    to_block (works 100 200) manager 1
    ∷ to_block (works 150 300) manager 2
    ∷ to_block (works 200 300) manager 3
    ∷ to_unblock 1 manager
    ∷ []

rows_left : (handle_blocks blocks_of_day free_house).occupancy ≡ block_row 3 11 200 300 ∷ []
unfolding handle_blocks handle_block create_block remove_block load_room_or_throw load_block allow
    from_table new_block find_overlaps insert_for_block insert_row has_conflict ranges_meet
    rows_conflict delete_for_block is_of_block
rows_left = refl

handle_blocks-Present_example : BlocksPresent (handle_blocks blocks_of_day free_house)
handle_blocks-Present_example = handle_blocks-Present blocks_of_day free_house (tt, λ i. refl)
