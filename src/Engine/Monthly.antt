-- ===== src/Engine/Monthly.antt =====
-- monthly.ts: the price of a stay by whole months and odd days.
pub mod Charges
use pms_homestay.Prelude.{
  ℕ, zero, suc, Bool, true, false, Option, none, some, List, [], ◌∷◌, ◌++◌, ltb, leb, if◌then◌else◌,
  Result, ok, err,
}
use pms_homestay.Prelude.Int.{ℤ, pos, negsuc, pos_part, ltb_ℤ}
use pms_homestay.Money.{round_vnd}
use pms_homestay.Calendar.{Date, add_months, diff_calendar_days, full_months_between}
use pms_homestay.Engine.Types.{
  Intl, PricingInput, RatePlanConfig, VietnamHoliday, QuoteLineItem, Quote, PricingError, Notes,
  utilities_metered, checkout_before_checkin, room_charge, whole_months, odd_days, one_day, monthly,
  or_else,
}
use pms_homestay.Engine.Builder.{line, BuildArgs, build_quote}

unfoldable pub month_items : ℕ → ℤ → List QuoteLineItem
month_items months base =
    if ltb 0 months then line room_charge (whole_months months) (pos months) base none ∷ [] else []

unfoldable pub odd_day_items : ℤ → ℤ → List QuoteLineItem
odd_day_items partial_days day_rate =
    if ltb_ℤ (pos 0) partial_days
    then line room_charge (odd_days (pos_part partial_days)) partial_days day_rate none ∷ []
    else []

-- `if (items.length === 0)`: one day at the least
unfoldable pub at_least_one_day : ℤ → List QuoteLineItem → List QuoteLineItem
at_least_one_day day_rate [] = line room_charge one_day (pos 1) day_rate none ∷ []
at_least_one_day day_rate (li ∷ lis) = li ∷ lis

unfoldable pub monthly_notes : Option Bool → Option Notes
monthly_notes (some true) = none
monthly_notes _ = some utilities_metered

-- The price lines of a stay.
unfoldable pub monthly_items :
    Intl → PricingInput → RatePlanConfig → List VietnamHoliday → List QuoteLineItem
monthly_items intl input plan holidays =
    let tz = plan.timezone in
    let ci_date = intl.local_date input.check_in tz in
    let co_date = intl.local_date input.check_out tz in
    let months = full_months_between ci_date co_date in
    let partial_days = diff_calendar_days (add_months ci_date months) co_date in
    let day_rate = round_vnd plan.base_price_vnd 30 in
    at_least_one_day day_rate
      (month_items months plan.base_price_vnd ++ odd_day_items partial_days day_rate)

unfoldable pub monthly_args : Intl → PricingInput → RatePlanConfig → List VietnamHoliday → BuildArgs
monthly_args intl input plan holidays = record {
  mode = monthly;
  line_items = monthly_items intl input plan holidays;
  deposit_type = plan.deposit_type;
  deposit_value = plan.deposit_value;
  holidays = [];
  notes = monthly_notes plan.monthly_includes_utilities;
}

-- quoteMonthly(input, plan, holidays)
unfoldable pub quote_monthly :
    Intl → PricingInput → RatePlanConfig → List VietnamHoliday → Result PricingError Quote
quote_monthly intl input plan holidays =
    if leb input.check_out input.check_in
    then err checkout_before_checkin
    else ok (build_quote (monthly_args intl input plan holidays))
