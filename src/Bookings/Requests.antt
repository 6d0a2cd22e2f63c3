-- ===== src/Bookings/Requests.antt =====
-- The calls of bookings.service.ts one after the other: each reads and writes with no other
-- transaction in between, and one that throws changes nothing. cancelFromIcalTx is not among them,
-- since its guard is in its caller.
use Prim.Native.String.{String}
use pms_homestay.Prelude.{ℕ, Bool, Option, List, [], ◌∷◌, ok, ◌>>=◌}
use pms_homestay.Bookings.Types.{Store, Services, Caller, Call}
use pms_homestay.Bookings.Create.{CreateBookingRequest, IcalInput, create, create_from_ical_tx}
use pms_homestay.Bookings.Lifecycle.{
  UpdateBookingRequest, update, cancel, confirm_from_deposit_paid, confirm, check_in, check_out,
}
use pms_homestay.Bookings.Moves.{switch_resource, reschedule}
use pms_homestay.Bookings.Surcharges.{
  CreateBookingSurchargeRequest, add_surcharge, remove_surcharge,
}
use pms_homestay.Bookings.Expiry.{expire_holds_for_tenant}
use pms_homestay.Bookings.Transactions.{commit}

pub data Request : Type 0 where
  to_create : CreateBookingRequest → Caller → ℕ → Request
  to_create_from_ical : IcalInput → ℕ → Request
  to_update : ℕ → ℕ → UpdateBookingRequest → Caller → Request
  to_cancel : ℕ → String → Caller → Request
  to_pay_deposit : ℕ → Option ℕ → Request
  to_confirm : ℕ → Option Bool → Caller → Request
  to_check_in : ℕ → Caller → Request
  to_check_out : ℕ → Caller → Request
  to_switch : ℕ → ℕ → String → Caller → Request
  to_reschedule : ℕ → ℕ → ℕ → String → Caller → Request
  to_add_surcharge : ℕ → CreateBookingSurchargeRequest → Caller → ℕ → Request
  to_remove_surcharge : ℕ → ℕ → Caller → Request
  to_expire : ℕ → Request

module _ {S : Type 0} (sv : Services S) where
  unfoldable pub handle : Request → Store S → Call (Store S)
  handle (to_create dto c id) db = create sv dto c id db
  handle (to_create_from_ical input id) db = create_from_ical_tx input id db
  handle (to_update id version dto c) db = update id version dto c db
  handle (to_cancel id reason c) db = cancel id reason c db
  handle (to_pay_deposit id actor) db = ok (confirm_from_deposit_paid id actor db)
  handle (to_confirm id force c) db = confirm sv id force c db
  handle (to_check_in id c) db = check_in id c db
  handle (to_check_out id c) db = check_out sv id c db
  handle (to_switch id resource_id reason c) db = switch_resource sv id resource_id reason c db
  handle (to_reschedule id check_in check_out reason c) db =
      reschedule sv id check_in check_out reason c db
  handle (to_add_surcharge id dto c key) db = add_surcharge id dto c key db
  handle (to_remove_surcharge id surcharge_id c) db = remove_surcharge id surcharge_id c db
  handle (to_expire now) db = expire_holds_for_tenant now db >>= λ r. ok r.0

  unfoldable pub handle_all : List Request → Store S → Store S
  unfolding handle
  handle_all [] db = db
  handle_all (r ∷ rs) db = handle_all rs (commit db (handle r db))
