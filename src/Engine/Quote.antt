-- ===== src/Engine/Quote.antt =====
-- index.ts: the entry point of the engine.
use pms_homestay.Prelude.{List, Result}
use pms_homestay.Engine.Types.{
  Intl, hourly, daily, monthly, PricingInput, RatePlanConfig, VietnamHoliday, Quote, PricingError,
}
use pms_homestay.Engine.Hourly.{quote_hourly}
use pms_homestay.Engine.Daily.{quote_daily}
use pms_homestay.Engine.Monthly.{quote_monthly}

-- quote(input, plan, holidays)
unfoldable pub quote :
    Intl → PricingInput → RatePlanConfig → List VietnamHoliday → Result PricingError Quote
quote intl input plan holidays = elim input.mode [
  | hourly ↦ quote_hourly intl input plan holidays
  | daily ↦ quote_daily intl input plan holidays
  | monthly ↦ quote_monthly intl input plan holidays
]
