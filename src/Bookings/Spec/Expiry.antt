-- ===== src/Bookings/Spec/Expiry.antt =====
-- The sweep of the expired holds keeps to the contract.
use pms_homestay.Prelude.{
  ℕ, zero, suc, ◌≡◌, refl, Bool, true, ◌⊎◌, inl, inr, Option, none, some, List, [], ◌∷◌, ok, ◌==◌,
  Ensures, Ensures-bind, All, Bool-cases, ◌>>=◌, keep, take, arith,
}
use pms_homestay.Bookings.Status.{BookingStatus, can_transition, is_terminal, hold, cancelled}
use pms_homestay.Bookings.Types.{Booking, Store, hold_expired, put, emit_booking, add_history}
use pms_homestay.Bookings.Lifecycle.{free_rooms, note_change, with_cancellation}
use pms_homestay.Bookings.Expiry.{
  expire_hold, expire_loop, expired_ids, expire_holds_for_tenant, is_expired, hold_sweep_batch,
}
use pms_homestay.Bookings.Spec.{Effects, changed, rooms_freed, start, after, StatusStep}
use pms_homestay.Bookings.Spec.Changes.{after_update, status_eq_sound}

All-keep :
    {A : Type 0} (P : A → Type 0) (p : A → Bool) (xs : List A)
    → ((x : A) → p x ≡ true → P x)
    → All P (keep p xs)
All-keep P p [] k = tt
All-keep P p (x ∷ xs) k = elim (Bool-cases (p x)) [
  | inl t ↦ rw t (k x t, All-keep P p xs k)
  | inr f ↦ rw f (All-keep P p xs k)
]

All-take : {A : Type 0} (P : A → Type 0) (n : ℕ) (xs : List A) → All P xs → All P (take n xs)
All-take P zero xs h = tt
All-take P (suc n) [] h = tt
All-take P (suc n) (x ∷ xs) h = (h.0, All-take P n xs h.1)

All-map :
    {A : Type 0} (P Q : A → Type 0) (xs : List A) → ((x : A) → P x → Q x) → All P xs → All Q xs
All-map P Q [] k h = tt
All-map P Q (x ∷ xs) k h = (k x h.0, All-map P Q xs k h.1)

-- The sweep may cancel that booking.
abbrev IsHeld : (ℕ → Option Booking) → ℕ → Type 0
IsHeld bookings id =
    (b : Booking) × (bookings id ≡ some b) × ((b.status ≡ hold) ⊎ (b.status ≡ cancelled))

put-IsHeld :
    (f : ℕ → Option Booking) (i j : ℕ) (b : Booking)
    → b.status ≡ cancelled
    → IsHeld f j
    → IsHeld (put i b f) j
put-IsHeld f i j b s h = elim (Bool-cases (j == i)) [
  | inl t ↦ rw t (b, refl, inr s)
  | inr t ↦ rw t h
]

expired-IsHeld :
    (now : ℕ) (o : Option Booking) (f : ℕ → Option Booking) (id : ℕ)
    → f id ≡ o
    → is_expired now o ≡ true
    → IsHeld f id
unfolding is_expired
expired-IsHeld now none f id e h = cc
expired-IsHeld now (some b) f id e h = (b, e, inl (status_eq_sound b.status hold (ground arith)))

held_step : (s : BookingStatus) → (s ≡ hold) ⊎ (s ≡ cancelled) → StatusStep s cancelled
unfolding can_transition
held_step s (inl e) = rw e (inr refl)
held_step s (inr e) = rw e (inl refl)

module _ {S : Type 0} where
  expire_loop-Effects :
      (now : ℕ) (ids : List ℕ) (selected db₀ db : Store S)
      → Effects db₀ db
      → All (IsHeld db.bookings) ids
      → Ensures (Effects db₀) (expire_loop now ids selected db)
  unfolding expire_loop expire_hold emit_booking note_change add_history free_rooms
      with_cancellation is_terminal
  expire_loop-Effects now [] selected db₀ db h a = h
  expire_loop-Effects now (id ∷ ids) selected db₀ db h a =
      let (b, e, s) = a.0 in
      Ensures-bind (Effects db₀) (λ d. Effects db₀ d × All (IsHeld d.bookings) ids)
        (expire_hold now id _ db) _
        (after_update (λ d. Effects db₀ d × All (IsHeld d.bookings) ids) id
          (λ b. with_cancellation hold_expired now b.cancelled_by b) db b _ e
          (
            after h (changed id b _ e (held_step b.status s) refl (rooms_freed refl refl) refl),
            All-map (IsHeld db.bookings) _ ids (λ j k. put-IsHeld db.bookings id j _ refl k) a.1,
          ))
        (λ d k. expire_loop-Effects now ids selected db₀ d k.0 k.1)

  pub expire_holds-Effects :
      (now : ℕ) (db : Store S)
      → Ensures (Effects db) (expire_holds_for_tenant now db >>= λ r. ok r.0)
  unfolding expire_holds_for_tenant expired_ids
  expire_holds-Effects now db =
      Ensures-bind (Effects db) (λ (r : Store S × ℕ). Effects db r.0) _ _
        (Ensures-bind (λ (r : Store S × ℕ). Effects db r.0) (Effects db) _ _
          (expire_loop-Effects now (expired_ids now db) db db db start (
            All-take (IsHeld db.bookings) hold_sweep_batch _ (
              All-keep (IsHeld db.bookings) (λ id. is_expired now (db.bookings id)) db.ids
                (λ id t. expired-IsHeld now (db.bookings id) db.bookings id refl t))))
          (λ d k. k))
        (λ r k. k)
