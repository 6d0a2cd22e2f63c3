-- ===== src/Pricing/Tests.antt =====
-- A quote of a daily plan with a voucher, which a booking takes ten minutes later.
use pms_homestay.Prelude.{◌≡◌, refl, true, none, some, [], ◌∷◌, ok, ◌==◌, if◌then◌else◌, arith}
use pms_homestay.Prelude.Int.{pos}
use pms_homestay.Calendar.{date}
use pms_homestay.Engine.Types.{Intl, daily, RatePlanConfig}
use pms_homestay.Engine.Quote.{quote}
use pms_homestay.Engine.Daily.{quote_daily}
use pms_homestay.Pricing.Tables.{
  RatePlanRow, QuoteRow, PricingTables, mode_eq, QuoteRequest, PricingCaller, Voucher,
}
use pms_homestay.Pricing.{
  compute_for_plan, caught_pricing, resolve_plan, chosen_plan, is_applicable, plan_or, with_voucher,
  take_off, quote_input, quote_tx, make_quote, property_of_resource, verify_quote_for_booking,
}
use pms_homestay.Pricing.Verified.{stay_of, make_quote-accepted}

abbrev new_year_clock : Intl
new_year_clock = record { local_date = λ t tz. date 2026 1 1; local_time = λ t tz. 840 }

abbrev nightly : RatePlanConfig
nightly = record {
  mode = daily;
  timezone = "Asia/Ho_Chi_Minh";
  base_price_vnd = pos 300_000;
  deposit_type = none;
  deposit_value = none;
  hourly_base_hours = none;
  hourly_extra_block_minutes = none;
  hourly_extra_block_price_vnd = none;
  hourly_overnight_surcharge_vnd = none;
  hourly_overnight_start = none;
  hourly_overnight_end = none;
  daily_checkin_time = some 840;
  daily_checkout_time = some 720;
  daily_early_checkin_fee_vnd = none;
  daily_late_checkout_fee_vnd = none;
  monthly_includes_utilities = none;
  rules = none;
}

abbrev nightly_row : RatePlanRow
nightly_row = record {
  property_id = 3;
  mode = daily;
  version = 2;
  is_active = true;
  is_default = true;
  columns = nightly;
}

abbrev tables : PricingTables
tables = record {
  timezones = λ p. none;
  resources = λ r. if r == 1 then some 3 else none;
  rate_plans = λ i. if i == 5 then some nightly_row else none;
  plan_ids = 5 ∷ [];
  rate_plan_rules = λ i. [];
  plan_resources = λ r. [];
  holidays = [];
  quotes = λ i. none;
  last_quote = 0;
}

abbrev summer : Voucher
summer code subtotal property = some (4, 20_000)

abbrev desk : PricingCaller
desk = record { authorized = λ p. true; now = 1_000_000 }

abbrev request : QuoteRequest
request = record {
  resource_id = 1;
  mode = daily;
  check_in = 10;
  check_out = 90;
  adults = none;
  children = some 1;
  rate_plan_id = some 5;
  discount_code = some "SUMMER";
}

quoted :
    (r : PricingTables × QuoteRow) × (make_quote new_year_clock summer request desk tables ≡ ok r)
unfolding make_quote property_of_resource quote_tx resolve_plan chosen_plan is_applicable mode_eq
    plan_or compute_for_plan caught_pricing quote_input quote quote_daily with_voucher take_off
quoted = (_, refl)

make_quote-accepted_example :
    verify_quote_for_booking new_year_clock quoted.0.1.id (stay_of request) 1_600_000 quoted.0.0
    ≡ ok quoted.0.1
make_quote-accepted_example =
    make_quote-accepted new_year_clock summer request desk tables quoted.0.0 quoted.0.1 1_600_000
      quoted.1 (omega arith)
