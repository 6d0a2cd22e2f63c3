-- ===== src/Bookings/Surcharges.antt =====
-- addSurcharge, listSurcharges and removeSurcharge of bookings.service.ts.
use Prim.Native.String.{String}
use pms_homestay.Prelude.{
  ℕ, ◌*◌, Bool, not, ◌&&◌, List, [], ◌∷◌, ◌++◌, ◌==◌, keep, ok, ◌>>=◌, ◌>>◌, throw_if,
}
use pms_homestay.Prelude.Int.{ℤ}
use pms_homestay.Money.{round_half_up, with_sign, abs}
use pms_homestay.Engine.Double.{round_double, one}
use pms_homestay.Bookings.Status.{is_terminal}
use pms_homestay.Bookings.Create.{is_empty}
use pms_homestay.Bookings.Types.{
  Surcharge, SurchargeType, Store, Caller, Call, booking_update, booking_read,
  booking_invalid_status, surcharge_not_found, load_or_throw, authorize,
}

pub record CreateBookingSurchargeRequest : Type 0 where
  pub item_type : SurchargeType
  pub description : String
  pub quantity : ℕ
  pub unit_price_vnd : ℤ

-- roundVnd(quantity * unit_price_vnd), the product a double
unfoldable pub surcharge_amount : ℕ → ℤ → ℤ
unfolding round_half_up with_sign round_double
surcharge_amount quantity unit_price =
    with_sign unit_price (round_half_up (round_double (quantity * abs unit_price) 1) one)

unfoldable pub new_surcharge : CreateBookingSurchargeRequest → ℕ → ℕ → ℕ → Surcharge
new_surcharge dto id booking_id sub = record {
  id = id;
  booking_id = booking_id;
  item_type = dto.item_type;
  description = dto.description;
  quantity = dto.quantity;
  unit_price_vnd = dto.unit_price_vnd;
  amount_vnd = surcharge_amount dto.quantity dto.unit_price_vnd;
  created_by = sub;
}

unfoldable pub is_surcharge : ℕ → ℕ → Surcharge → Bool
is_surcharge id booking_id s = s.id == id && s.booking_id == booking_id

module _ {S : Type 0} where
  -- addSurcharge(id, dto, user): `key` is the new primary key.
  unfoldable pub add_surcharge :
      ℕ → CreateBookingSurchargeRequest → Caller → ℕ → Store S → Call (Store S)
  add_surcharge id dto c key db = do
    b ← load_or_throw db id
    authorize c b.property_id booking_update
    throw_if (is_terminal b.status) booking_invalid_status
    ok (record db { surcharges = db.surcharges ++ (new_surcharge dto key id c.sub ∷ []) })

  -- listSurcharges(id, user)
  unfoldable pub list_surcharges : ℕ → Caller → Store S → Call (List Surcharge)
  list_surcharges id c db = do
    b ← load_or_throw db id
    authorize c b.property_id booking_read
    ok (keep (λ s. s.booking_id == id) db.surcharges)

  -- removeSurcharge(id, surchargeId, user)
  unfoldable pub remove_surcharge : ℕ → ℕ → Caller → Store S → Call (Store S)
  remove_surcharge id surcharge_id c db = do
    b ← load_or_throw db id
    authorize c b.property_id booking_update
    throw_if (is_terminal b.status) booking_invalid_status
    throw_if (is_empty (keep (is_surcharge surcharge_id id) db.surcharges)) surcharge_not_found
    ok (record db { surcharges = keep (λ s. not (is_surcharge surcharge_id id s)) db.surcharges })
