-- ===== src/Discounts/Tests.antt =====
-- A voucher of two uses, one of which is left.
use pms_homestay.Prelude.{
  ◌≡◌, refl, true, false, none, some, [], ◌∷◌, ok, ◌==◌, if◌then◌else◌, arith,
}
use pms_homestay.Discounts.{
  DiscountRow, fixed, percent, ApplyDiscountContext, Codes, evaluate, is_not_started, is_over,
  is_eligible, is_used_up, live, discount_of, redeem_in_tx, redeem_row, redeem_all, wins,
  is_redeemable, put_row, used_once_more,
}
use pms_homestay.Discounts.Redemption.{UsedMore, evaluate-redeem_in_tx, redeem_all-UsedMore}

abbrev summer : DiscountRow
summer = record {
  id = 1;
  discount_type = fixed;
  discount_value = 50_000;
  min_order_vnd = 100_000;
  max_uses = some 2;
  used_count = 1;
  valid_from = some 10;
  valid_to = some 90;
  applicable_property_ids = some (3 ∷ []);
  is_active = true;
  is_deleted = false;
}

abbrev codes_of_house : Codes
codes_of_house i = if i == 1 then some summer else none

abbrev stay : ApplyDiscountContext
stay = record { subtotal_vnd = 300_000; property_id = 3; now = 50 }

evaluate-redeem_in_tx_example :
    redeem_in_tx 1 codes_of_house ≡ ok (put_row 1 (used_once_more summer) codes_of_house)
evaluate-redeem_in_tx_example =
    evaluate-redeem_in_tx codes_of_house 1 summer stay refl refl
      (unfold evaluate live is_not_started is_over is_eligible is_used_up in refl)

-- Three bookings ask for it at once, and one gets it.
redeem_all-UsedMore_example :
    UsedMore
      (redeem_all (1 ∷ 1 ∷ 1 ∷ []) codes_of_house 1)
      summer
      (wins 1 (1 ∷ 1 ∷ 1 ∷ []) codes_of_house)
redeem_all-UsedMore_example =
    redeem_all-UsedMore (1 ∷ 1 ∷ 1 ∷ []) codes_of_house 1 summer refl (omega arith)

one_wins : wins 1 (1 ∷ 1 ∷ 1 ∷ []) codes_of_house ≡ 1
unfolding wins redeem_in_tx redeem_row is_redeemable is_used_up
one_wins = refl

percent_of : discount_of percent 1_500 333_333 ≡ 50_000
unfolding discount_of
percent_of = refl
