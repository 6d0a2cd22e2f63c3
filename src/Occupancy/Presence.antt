-- ===== src/Occupancy/Presence.antt =====
-- The rows of one booking among the rows of the table.
use pms_homestay.Prelude.{
  ℕ, ◌≡◌, refl, sym, true, false, List, [], ◌∷◌, keep, Bool-cases, inl, inr, arith, Result-cases,
  ok, ◌==◌, ok-injective,
}
use pms_homestay.Occupancy.{
  OccupancyRow, MemberRoom, booking_row, insert_row, insert_for_booking, is_of_booking,
  delete_for_booking,
}
use pms_homestay.Occupancy.NoOverlap.{insert_row-eq_ok}

abbrev pub rows_of : ℕ → List OccupancyRow → List OccupancyRow
rows_of i = keep (λ r. is_of_booking i r.source)

-- The rows with those of a booking on top, the last member room first.
abbrev pub stack : ℕ → List MemberRoom → ℕ → ℕ → List OccupancyRow → List OccupancyRow
stack i [] ci co rs = rs
stack i (m ∷ ms) ci co rs = stack i ms ci co (booking_row i m ci co ∷ rs)

pub insert_for_booking-eq_ok :
    (i : ℕ) (ms : List MemberRoom) (ci co : ℕ) (rs out : List OccupancyRow)
    → insert_for_booking i ms ci co rs ≡ ok out
    → out ≡ stack i ms ci co rs
unfolding insert_for_booking
insert_for_booking-eq_ok i [] ci co rs out e = sym (ok-injective rs out e)
insert_for_booking-eq_ok i (m ∷ ms) ci co rs out e =
    elim (Result-cases (insert_row (booking_row i m ci co) rs)) [
      | inl (mid, f) ↦
          let (free, shape) = insert_row-eq_ok (booking_row i m ci co) rs mid f in
          rw (insert_for_booking-eq_ok i ms ci co mid out (rw f at e), shape) refl
      | inr (x, f) ↦ let bad = rw f at e in cc
    ]

refl_test : (i : ℕ) → (i == i) ≡ true
refl_test i = ground arith

pub rows_of-stack_self :
    (i : ℕ) (ms : List MemberRoom) (ci co : ℕ) (rs : List OccupancyRow)
    → rows_of i (stack i ms ci co rs) ≡ stack i ms ci co (rows_of i rs)
unfolding booking_row is_of_booking
rows_of-stack_self i [] ci co rs = refl
rows_of-stack_self i (m ∷ ms) ci co rs =
    rw (rows_of-stack_self i ms ci co (booking_row i m ci co ∷ rs), refl_test i) refl

pub rows_of-stack_other :
    (i j : ℕ) (ms : List MemberRoom) (ci co : ℕ) (rs : List OccupancyRow)
    → (i == j) ≡ false
    → rows_of j (stack i ms ci co rs) ≡ rows_of j rs
unfolding booking_row is_of_booking
rows_of-stack_other i j [] ci co rs h = refl
rows_of-stack_other i j (m ∷ ms) ci co rs h =
    rw (rows_of-stack_other i j ms ci co (booking_row i m ci co ∷ rs) h, h) refl

pub rows_of-delete_self :
    (i : ℕ) (rs : List OccupancyRow) → rows_of i (delete_for_booking i rs) ≡ []
unfolding delete_for_booking
rows_of-delete_self i [] = refl
rows_of-delete_self i (r ∷ rs) = elim (Bool-cases (is_of_booking i r.source)) [
  | inl t ↦ rw t (rows_of-delete_self i rs)
  | inr f ↦ rw (f, f) (rows_of-delete_self i rs)
]

other_source :
    (i j : ℕ) (r : OccupancyRow)
    → (i == j) ≡ false
    → is_of_booking i r.source ≡ true
    → is_of_booking j r.source ≡ false
unfolding is_of_booking
other_source i j r h t = ground arith

pub rows_of-delete_other :
    (i j : ℕ) (rs : List OccupancyRow)
    → (i == j) ≡ false
    → rows_of j (delete_for_booking i rs) ≡ rows_of j rs
unfolding delete_for_booking
rows_of-delete_other i j [] h = refl
rows_of-delete_other i j (r ∷ rs) h = elim (Bool-cases (is_of_booking i r.source)) [
  | inl t ↦ rw (t, other_source i j r h t) (rows_of-delete_other i j rs h)
  | inr f ↦ rw (f, rows_of-delete_other i j rs h) refl
]
