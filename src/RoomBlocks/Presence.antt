-- ===== src/RoomBlocks/Presence.antt =====
-- A block holds its room for exactly its span.
use pms_homestay.Prelude.{
  ℕ, ◌≡◌, refl, ◌∙◌, ap, true, false, not, Option, none, some, List, [], ◌∷◌, Ensures, Ensures-bind,
  Ensures-next, Ensures-then, Ensures-guard, Bool-cases, inl, inr, arith, ok, err, ◌==◌, Result,
  keep, throw_if, ltb,
}
use pms_homestay.Occupancy.{
  OccupancyRow, OccupancyError, of_block, is_of_block, insert_for_block, insert_row,
  delete_for_block, find_overlaps,
}
use pms_homestay.Occupancy.NoOverlap.{NoOverlap, insert_row-eq_ok, keep-NoOverlap}
use pms_homestay.RoomBlocks.{
  RoomBlock, CreateRoomBlockRequest, BlockCaller, BlockStore, BlockCall, BlockRequest, room_crud,
  load_room_or_throw, load_block, allow, store_block, is_some, any, new_block, create_block,
  from_table, remove_block, to_block, to_unblock, handle_block, handle_blocks, settle,
  block_overlap, block_id_taken, block_check_violation,
}

abbrev pub rows_of_block : ℕ → List OccupancyRow → List OccupancyRow
rows_of_block i = keep (λ r. is_of_block i r.source)

abbrev pub block_row : ℕ → ℕ → ℕ → ℕ → OccupancyRow
block_row i room start end = record {
  room_id = room;
  source = of_block i;
  start_at = start;
  end_at = end;
}

-- The rows that the block of an id should have.
abbrev pub rows_of_option : ℕ → Option RoomBlock → List OccupancyRow
rows_of_option i none = []
rows_of_option i (some b) = block_row i b.room_id b.start_at b.end_at ∷ []

-- No two rows overlap, and every block has the row that it should have.
abbrev pub BlocksPresent : BlockStore → Type 0
BlocksPresent db =
    NoOverlap db.occupancy
    × ((i : ℕ) → rows_of_block i db.occupancy ≡ rows_of_option i (db.blocks i))

same_key : (i j : ℕ) → (i == j) ≡ true → i ≡ j
same_key i j h = ground arith

other_key : (i j : ℕ) → (i == j) ≡ false → (j == i) ≡ false
other_key i j h = ground arith

key_refl : (i : ℕ) → (i == i) ≡ true
key_refl i = ground arith

not_taken : (o : Option RoomBlock) → is_some o ≡ false → o ≡ none
not_taken none h = refl
not_taken (some a) h = cc

rows_of_block-delete_self :
    (i : ℕ) (rs : List OccupancyRow) → rows_of_block i (delete_for_block i rs) ≡ []
unfolding delete_for_block
rows_of_block-delete_self i [] = refl
rows_of_block-delete_self i (r ∷ rs) = elim (Bool-cases (is_of_block i r.source)) [
  | inl t ↦ rw t (rows_of_block-delete_self i rs)
  | inr f ↦ rw (f, f) (rows_of_block-delete_self i rs)
]

other_source :
    (i j : ℕ) (r : OccupancyRow)
    → (i == j) ≡ false
    → is_of_block i r.source ≡ true
    → is_of_block j r.source ≡ false
unfolding is_of_block
other_source i j r h t = ground arith

rows_of_block-delete_other :
    (i j : ℕ) (rs : List OccupancyRow)
    → (i == j) ≡ false
    → rows_of_block j (delete_for_block i rs) ≡ rows_of_block j rs
unfolding delete_for_block
rows_of_block-delete_other i j [] h = refl
rows_of_block-delete_other i j (r ∷ rs) h = elim (Bool-cases (is_of_block i r.source)) [
  | inl t ↦ rw (t, other_source i j r h t) (rows_of_block-delete_other i j rs h)
  | inr f ↦ rw (f, rows_of_block-delete_other i j rs h) refl
]

from_table-eq_ok :
    {A : Type 0} (r : Result OccupancyError A) → Ensures (λ a. r ≡ ok a) (from_table r)
unfolding from_table
from_table-eq_ok (ok a) = refl
from_table-eq_ok (err e) = tt

block_inserted :
    (db : BlockStore) (id room start end : ℕ) (b : RoomBlock) (rows : List OccupancyRow) (i : ℕ)
    → BlocksPresent db
    → db.blocks id ≡ none
    → rows ≡ block_row id room start end ∷ db.occupancy
    → block_row id room start end ≡ block_row id b.room_id b.start_at b.end_at
    → rows_of_block i rows ≡ rows_of_option i (store_block id (some b) db.blocks i)
unfolding is_of_block
block_inserted db id room start end b rows i h n e same = elim (Bool-cases (i == id)) [
  | inl t ↦
      let none_yet : rows_of_block id db.occupancy ≡ [] = h.1 id ∙ ap (rows_of_option id) n in
      rw (same_key i id t, e, key_refl id, none_yet, same) refl
  | inr f ↦ rw (e, f, other_key i id f) (h.1 i)
]

block_removed :
    (db : BlockStore) (id i : ℕ)
    → BlocksPresent db
    → rows_of_block i (delete_for_block id db.occupancy)
      ≡ rows_of_option i (store_block id none db.blocks i)
block_removed db id i h = elim (Bool-cases (i == id)) [
  | inl t ↦ rw (same_key i id t, key_refl id) (rows_of_block-delete_self id db.occupancy)
  | inr f ↦ rw (f, rows_of_block-delete_other id i db.occupancy (other_key i id f)) (h.1 i)
]

create_block-Present :
    (dto : CreateRoomBlockRequest) (c : BlockCaller) (id : ℕ) (db : BlockStore)
    → BlocksPresent db
    → Ensures BlocksPresent (create_block dto c id db)
unfolding create_block new_block insert_for_block
create_block-Present dto c id db h =
    Ensures-next BlocksPresent (load_room_or_throw db dto.room_id) _ (λ property x.
      Ensures-then BlocksPresent (allow c property room_crud) _ (
        Ensures-next BlocksPresent
          (from_table (find_overlaps db.occupancy (dto.room_id ∷ []) dto.start_at dto.end_at)) _
          (λ conflicts y. Ensures-then BlocksPresent (throw_if (any conflicts) block_overlap) _ (
            Ensures-then BlocksPresent
              (throw_if (not (ltb dto.start_at dto.end_at)) block_check_violation) _
              (Ensures-guard BlocksPresent (is_some (db.blocks id)) block_id_taken _ (λ g.
                let r = block_row id dto.room_id dto.start_at dto.end_at in
                Ensures-bind BlocksPresent (λ rows. insert_row r db.occupancy ≡ ok rows) _ _
                  (from_table-eq_ok (insert_row r db.occupancy))
                  (λ rows e.
                    let (free, shape) = insert_row-eq_ok r db.occupancy rows e in
                    (
                      rw shape (free, h.0),
                      λ i.
                          block_inserted db id dto.room_id dto.start_at dto.end_at
                            (new_block dto id c.sub) rows i h (not_taken (db.blocks id) g) shape
                            refl,
                    ))))))))

remove_block-Present :
    (id : ℕ) (c : BlockCaller) (db : BlockStore)
    → BlocksPresent db
    → Ensures BlocksPresent (remove_block id c db)
unfolding remove_block
remove_block-Present id c db h = Ensures-next BlocksPresent (load_block db id) _ (λ block x.
    Ensures-next BlocksPresent (load_room_or_throw db block.room_id) _ (λ property y.
      Ensures-then BlocksPresent (allow c property room_crud) _ (
        unfold delete_for_block in
            keep-NoOverlap (λ r. not (is_of_block id r.source)) db.occupancy h.0,
        λ i. block_removed db id i h,
      )))

settle-Present :
    (db : BlockStore) (r : BlockCall BlockStore)
    → BlocksPresent db
    → Ensures BlocksPresent r
    → BlocksPresent (settle db r)
settle-Present db (ok d) h k = k
settle-Present db (err e) h k = h

handle_block-Present :
    (r : BlockRequest) (db : BlockStore)
    → BlocksPresent db
    → Ensures BlocksPresent (handle_block r db)
unfolding handle_block
handle_block-Present (to_block dto c id) db h = create_block-Present dto c id db h
handle_block-Present (to_unblock id c) db h = remove_block-Present id c db h

-- From a store whose rows do not overlap and in which every block has the row that it should have,
-- after any calls that block rooms or free them, those that throw being rolled back, the rows do not
-- overlap, and the rows that belong to an id are the one row of that block's room and span, if there is
-- such a block, and none otherwise.
pub handle_blocks-Present :
    (rs : List BlockRequest) (db : BlockStore)
    → BlocksPresent db
    → BlocksPresent (handle_blocks rs db)
unfolding handle_blocks
handle_blocks-Present [] db h = h
handle_blocks-Present (r ∷ rs) db h =
    handle_blocks-Present rs (settle db (handle_block r db))
      (settle-Present db (handle_block r db) h (handle_block-Present r db h))
