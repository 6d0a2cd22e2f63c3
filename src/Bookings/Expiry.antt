-- ===== src/Bookings/Expiry.antt =====
-- sweepExpiredHolds and expireHoldsForTenant of bookings.service.ts. A query without an order
-- reads the rows in the order of `ids`.
use pms_homestay.Prelude.{
  ℕ, ◌+◌, Bool, false, ◌&&◌, Option, none, some, List, [], ◌∷◌, ltb, keep, take, length, ok, ◌>>=◌,
}
use pms_homestay.Bookings.Status.{hold, cancelled, status_eq}
use pms_homestay.Bookings.Types.{
  Booking, Store, Call, EventType, hold_expired, update_booking, emit_booking,
}
use pms_homestay.Bookings.Lifecycle.{free_rooms, note_change, with_cancellation}

abbrev pub hold_sweep_batch : ℕ
hold_sweep_batch = 500

unfoldable pub is_before : Option ℕ → ℕ → Bool
is_before none now = false
is_before (some t) now = ltb t now

-- `status: 'HOLD', expires_at: { lt: now }`
unfoldable pub is_expired : ℕ → Option Booking → Bool
unfolding is_before
is_expired now none = false
is_expired now (some b) = status_eq b.status hold && is_before b.expires_at now

unfoldable pub property_of : Option Booking → ℕ
property_of none = 0
property_of (some b) = b.property_id

module _ {S : Type 0} where
  -- One round of the loop: `property_id` was selected with the id.
  unfoldable pub expire_hold : ℕ → ℕ → ℕ → Store S → Call (Store S)
  expire_hold now id property_id db = do
    db₁ ← update_booking id (λ b. with_cancellation hold_expired now b.cancelled_by b) db
    ok (
        emit_booking EventType.cancelled id property_id (some hold_expired)
          (note_change id hold cancelled none (some hold_expired) (free_rooms id db₁)))

  unfoldable pub expire_loop : ℕ → List ℕ → Store S → Store S → Call (Store S)
  expire_loop now [] selected db = ok db
  expire_loop now (id ∷ ids) selected db =
      expire_hold now id (property_of (selected.bookings id)) db >>= λ db₁.
      expire_loop now ids selected db₁

  unfoldable pub expired_ids : ℕ → Store S → List ℕ
  expired_ids now db = take hold_sweep_batch (keep (λ id. is_expired now (db.bookings id)) db.ids)

  -- expireHoldsForTenant(tenantId)
  unfoldable pub expire_holds_for_tenant : ℕ → Store S → Call (Store S × ℕ)
  expire_holds_for_tenant now db = do
    let expired = expired_ids now db
    db₁ ← expire_loop now expired db db
    ok (db₁, length expired)

  -- sweepExpiredHolds(), over the stores of the tenants that are in trial or active
  unfoldable pub sweep_expired_holds : ℕ → List (Store S) → Call (List (Store S) × ℕ)
  sweep_expired_holds now [] = ok ([], 0)
  sweep_expired_holds now (db ∷ dbs) = do
    (db₁, n) ← expire_holds_for_tenant now db
    (dbs₁, total) ← sweep_expired_holds now dbs
    ok (db₁ ∷ dbs₁, n + total)
