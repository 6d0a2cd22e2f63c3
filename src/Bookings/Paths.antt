-- ===== src/Bookings/Paths.antt =====
-- The statuses that a booking goes through.
use pms_homestay.Prelude.{
  ℕ, ◌≡◌, refl, true, Option, some, List, [], ◌∷◌, Ensures, Bool-cases, inl, inr, arith, ok, err,
  ◌==◌,
}
use pms_homestay.Bookings.Status.{BookingStatus, can_transition, is_terminal}
use pms_homestay.Bookings.Types.{Booking, Store, Services, Call}
use pms_homestay.Bookings.Transactions.{commit}
use pms_homestay.Bookings.Requests.{Request, handle, handle_all}
use pms_homestay.Bookings.Spec.{Effect, Effects, idle, opened, changed, StatusStep, start, after}
use pms_homestay.Bookings.Refinement.{handle-Effects}

-- The statuses that BOOKING_TRANSITIONS leads to from a status.
pub data StatusPath (s : BookingStatus) : BookingStatus → Type 0 where
  stay : StatusPath s s
  go_on : {t u : BookingStatus} → StatusPath s t → can_transition t u ≡ true → StatusPath s u

terminal_stops : (s t : BookingStatus) → is_terminal s ≡ true → can_transition s t ≡ true → ⊥
unfolding is_terminal can_transition
terminal_stops s t h c = ground arith

StatusPath-terminal : (s t : BookingStatus) → is_terminal s ≡ true → StatusPath s t → t ≡ s
StatusPath-terminal s t h stay = refl
StatusPath-terminal s t h (go_on {t = m} p c) =
    let same = StatusPath-terminal s m h p in absurd (terminal_stops s t h (rw same at c))

same_key : (i j : ℕ) → (i == j) ≡ true → i ≡ j
same_key i j h = ground arith

-- The booking that `o` was is still there, further along.
abbrev pub Follows : BookingStatus → Option Booking → Type 0
Follows s o = (b : Booking) × (o ≡ some b) × StatusPath s b.status

step : (s t u : BookingStatus) → StatusPath s t → StatusStep t u → StatusPath s u
step s t u p (inl e) = rw e p
step s t u p (inr c) = go_on p c

module _ {S : Type 0} where
  Effect-Follows :
      (s : BookingStatus) (i : ℕ) (db d : Store S)
      → Effect db d
      → Follows s (db.bookings i)
      → Follows s (d.bookings i)
  Effect-Follows s i db d (idle eb eo em) h = rw eb h
  Effect-Follows s i db d (opened b n o eb ins em) (a, e, p) = elim (Bool-cases (i == b.id)) [
    | inl t ↦ let same = same_key i b.id t in let bad = rw same at e in cc
    | inr t ↦ rw (eb, t) (a, e, p)
  ]
  Effect-Follows s i db d (changed id b b' e c eb r em) (a, ea, p) = elim (Bool-cases (i == id)) [
    | inl t ↦
        let same = same_key i id t in
        let row : a ≡ b = let ea' = rw same at ea in cc in
        rw (eb, t) (b', refl, step s b.status b'.status (rw (← row) p) c)
    | inr t ↦ rw (eb, t) (a, ea, p)
  ]

  Effects-Follows :
      (s : BookingStatus) (i : ℕ) (db d : Store S)
      → Effects db d
      → Follows s (db.bookings i)
      → Follows s (d.bookings i)
  Effects-Follows s i db d start h = h
  Effects-Follows s i db d (after {d = m} k e) h =
      Effect-Follows s i m d e (Effects-Follows s i db m k h)

  commit-Follows :
      (s : BookingStatus) (i : ℕ) (db : Store S) (r : Call (Store S))
      → Ensures (Effects db) r
      → Follows s (db.bookings i)
      → Follows s ((commit db r).bookings i)
  commit-Follows s i db (ok d) k h = Effects-Follows s i db d k h
  commit-Follows s i db (err e) k h = h

handle_all-Follows :
    {S : Type 0} (sv : Services S) (s : BookingStatus) (i : ℕ) (rs : List Request) (db : Store S)
    → Follows s (db.bookings i)
    → Follows s ((handle_all sv rs db).bookings i)
unfolding handle_all
handle_all-Follows sv s i [] db h = h
handle_all-Follows sv s i (r ∷ rs) db h =
    handle_all-Follows sv s i rs (commit db (handle sv r db))
      (commit-Follows s i db (handle sv r db) (handle-Effects sv r db) h)

-- After any calls one after the other, cancelFromIcalTx not being one of them, those that throw
-- being rolled back, a booking that was there is still there, and its status is the one it had or
-- one that the table of transitions leads to from it, step by step.
pub handle_all-status :
    {S : Type 0} (sv : Services S) (i : ℕ) (rs : List Request) (db : Store S) (b : Booking)
    → db.bookings i ≡ some b
    → (b' : Booking) × ((handle_all sv rs db).bookings i ≡ some b') × StatusPath b.status b'.status
handle_all-status sv i rs db b e = handle_all-Follows sv b.status i rs db (b, e, stay)

-- A booking in a terminal status is still there after any calls one after the other,
-- cancelFromIcalTx not being one of them, in that status.
pub handle_all-terminal :
    {S : Type 0} (sv : Services S) (i : ℕ) (rs : List Request) (db : Store S) (b : Booking)
    → db.bookings i ≡ some b
    → is_terminal b.status ≡ true
    → (b' : Booking) × ((handle_all sv rs db).bookings i ≡ some b') × (b'.status ≡ b.status)
handle_all-terminal sv i rs db b e t =
    let (b', e', p) = handle_all-status sv i rs db b e in
    (b', e', StatusPath-terminal b.status b'.status t p)
