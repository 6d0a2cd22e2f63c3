-- ===== src/Engine/Types.antt =====
-- types.ts and holiday.types.ts: what goes into the engine and what comes out. A description is
-- the data of its text; an instant is the number of milliseconds since the earliest instant that a
-- Date holds; a time of day HH:mm is its number of minutes.
use Prim.Native.String.{String}
use pms_homestay.Prelude.{ℕ, Bool, Option, List}
use pms_homestay.Prelude.Int.{ℤ}
use pms_homestay.Calendar.{Date}

pub data PricingMode : Type 0 where
  hourly daily monthly : PricingMode

pub data DepositType : Type 0 where
  no_deposit fixed percent : DepositType

pub data PriceModifierType : Type 0 where
  add_fixed add_percent override : PriceModifierType

pub data RatePlanRuleType : Type 0 where
  weekday weekend holiday season date_range : RatePlanRuleType

pub data LineItemType : Type 0 where
  room_charge surcharge discount tax utility amenity : LineItemType

pub data Description : Type 0 where
  base_package : ℕ → Description
  extra_blocks : ℕ → ℕ → Description
  overnight : Description
  night_of : Date → Description
  early_checkin : Description
  late_checkout : Description
  whole_months : ℕ → Description
  odd_days : ℕ → Description
  one_day : Description
  voucher : String → Description

pub data Notes : Type 0 where
  utilities_metered : Notes

pub record VietnamHoliday : Type 0 where
  pub date : Date
  pub name : String

pub record PricingInput : Type 0 where
  pub mode : PricingMode
  pub check_in : ℕ
  pub check_out : ℕ
  pub adults : Option ℕ
  pub children : Option ℕ

pub record RatePlanRule : Type 0 where
  pub rule_type : RatePlanRuleType
  pub start_date : Option Date
  pub end_date : Option Date
  pub days_of_week : Option (List ℕ)
  pub price_modifier_type : PriceModifierType
  pub price_modifier_value : ℤ
  pub priority : ℤ
  pub created_at : ℕ

pub record RatePlanConfig : Type 0 where
  pub mode : PricingMode
  pub timezone : String
  pub base_price_vnd : ℤ
  pub deposit_type : Option DepositType
  pub deposit_value : Option ℤ
  pub hourly_base_hours : Option ℕ
  pub hourly_extra_block_minutes : Option ℕ
  pub hourly_extra_block_price_vnd : Option ℤ
  pub hourly_overnight_surcharge_vnd : Option ℤ
  pub hourly_overnight_start : Option ℕ
  pub hourly_overnight_end : Option ℕ
  pub daily_checkin_time : Option ℕ
  pub daily_checkout_time : Option ℕ
  pub daily_early_checkin_fee_vnd : Option ℤ
  pub daily_late_checkout_fee_vnd : Option ℤ
  pub monthly_includes_utilities : Option Bool
  pub rules : Option (List RatePlanRule)

pub record QuoteLineItem : Type 0 where
  pub type : LineItemType
  pub description : Description
  pub quantity : ℤ
  pub unit_price_vnd : ℤ
  pub amount_vnd : ℤ
  pub local_date : Option Date

pub record Quote : Type 0 where
  pub mode : PricingMode
  pub line_items : List QuoteLineItem
  pub subtotal_vnd : ℤ
  pub discount_vnd : ℤ
  pub tax_vnd : ℤ
  pub total_vnd : ℤ
  pub deposit_vnd : ℤ
  pub holidays : List VietnamHoliday
  pub notes : Option Notes

pub data PricingError : Type 0 where
  checkout_before_checkin : PricingError

-- What timezone.ts asks of Intl.DateTimeFormat: the local date, and the local time of day.
pub record Intl : Type 0 where
  pub local_date : ℕ → String → Date
  pub local_time : ℕ → String → ℕ

abbrev pub or_else {ℓ} : {A : Type ℓ} → Option A → A → A
or_else (Option.some a) d = a
or_else Option.none d = d
