-- ===== src/Occupancy/NoOverlap.antt =====
-- No room is blocked twice at one time, whatever is inserted and deleted.
use pms_homestay.Prelude.{
  ℕ, ◌≤◌, ◌<◌, ◌≡◌, refl, Bool, false, List, [], ◌∷◌, keep, Bool-cases, inl, inr, arith, zero, suc,
  some, get_elem?, ok-injective, Result-cases, ok,
}
use pms_homestay.Occupancy.{
  OccupancyRow, MemberRoom, rows_conflict, has_conflict, insert_row, booking_row,
  insert_for_booking,
}

abbrev pub NoOverlap : List OccupancyRow → Type 0
NoOverlap [] = Unit
NoOverlap (r ∷ rs) = (has_conflict r rs ≡ false) × NoOverlap rs

has_conflict-keep :
    (p : OccupancyRow → Bool) (r : OccupancyRow) (rs : List OccupancyRow)
    → has_conflict r rs ≡ false
    → has_conflict r (keep p rs) ≡ false
unfolding has_conflict
has_conflict-keep p r [] h = refl
has_conflict-keep p r (x ∷ rs) h = ground (arith, has_conflict-keep p r rs)

pub keep-NoOverlap :
    (p : OccupancyRow → Bool) (rs : List OccupancyRow) → NoOverlap rs → NoOverlap (keep p rs)
keep-NoOverlap p [] h = tt
keep-NoOverlap p (r ∷ rs) h = elim (Bool-cases (p r)) [
  | inl e ↦ rw e (has_conflict-keep p r rs h.0, keep-NoOverlap p rs h.1)
  | inr e ↦ rw e (keep-NoOverlap p rs h.1)
]

pub insert_row-eq_ok :
    (r : OccupancyRow) (rs out : List OccupancyRow)
    → insert_row r rs ≡ ok out
    → (has_conflict r rs ≡ false) × (out ≡ r ∷ rs)
unfolding insert_row
insert_row-eq_ok r rs out e = ground arith

pub insert_row-NoOverlap :
    (r : OccupancyRow) (rs out : List OccupancyRow)
    → NoOverlap rs
    → insert_row r rs ≡ ok out
    → NoOverlap out
insert_row-NoOverlap r rs out h e =
    let (free, shape) = insert_row-eq_ok r rs out e in rw shape (free, h)

pub insert_for_booking-NoOverlap :
    (i : ℕ) (ms : List MemberRoom) (ci co : ℕ) (rs out : List OccupancyRow)
    → NoOverlap rs
    → insert_for_booking i ms ci co rs ≡ ok out
    → NoOverlap out
unfolding insert_for_booking
insert_for_booking-NoOverlap i [] ci co rs out h e = rw (← ok-injective rs out e) h
insert_for_booking-NoOverlap i (m ∷ ms) ci co rs out h e =
    elim (Result-cases (insert_row (booking_row i m ci co) rs)) [
      | inl (mid, f) ↦
          insert_for_booking-NoOverlap i ms ci co mid out
            (insert_row-NoOverlap (booking_row i m ci co) rs mid h f) (rw f at e)
      | inr (x, f) ↦ let bad = rw f at e in cc
    ]

no_conflict_at :
    (r : OccupancyRow) (rs : List OccupancyRow) (j : ℕ) (b : OccupancyRow)
    → has_conflict r rs ≡ false
    → get_elem? rs j ≡ some b
    → rows_conflict r b ≡ false
unfolding has_conflict
no_conflict_at r [] j b h e = cc
no_conflict_at r (x ∷ rs) zero b h e = ground arith
no_conflict_at r (x ∷ rs) (suc j) b h e = ground (arith, no_conflict_at r rs j b)

-- Two rows of the table for one room, at different places, never share an instant.
pub NoOverlap-apart :
    (rs : List OccupancyRow) (i j : ℕ) (a b : OccupancyRow) (t : ℕ)
    → NoOverlap rs
    → get_elem? rs i ≡ some a
    → get_elem? rs j ≡ some b
    → i < j
    → a.room_id ≡ b.room_id
    → ¬ ((a.start_at ≤ t) × (t < a.end_at) × (b.start_at ≤ t) × (t < b.end_at))
NoOverlap-apart [] i j a b t h ea eb lt room inside = cc
NoOverlap-apart (r ∷ rs) zero zero a b t h ea eb lt room inside = omega arith
NoOverlap-apart (r ∷ rs) zero (suc j) a b t h ea eb lt room inside =
    unfold rows_conflict in ground (arith, no_conflict_at r rs j b h.0 eb)
NoOverlap-apart (r ∷ rs) (suc i) zero a b t h ea eb lt room inside = omega arith
NoOverlap-apart (r ∷ rs) (suc i) (suc j) a b t h ea eb lt room inside =
    NoOverlap-apart rs i j a b t h.1 ea eb (omega arith) room inside
