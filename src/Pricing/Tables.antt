-- ===== src/Pricing/Tables.antt =====
-- The tables, the requests and the exceptions of pricing.service.ts.
use Prim.Native.String.{String}
use pms_homestay.Prelude.{ℕ, Bool, true, false, Option, List, Result}
use pms_homestay.Prelude.Int.{ℤ}
use pms_homestay.Engine.Types.{
  PricingMode, hourly, daily, monthly, RatePlanConfig, RatePlanRule, VietnamHoliday, QuoteLineItem,
  PricingError,
}

-- `columns` are those that go to the engine as they are.
pub record RatePlanRow : Type 0 where
  pub property_id : ℕ
  pub mode : PricingMode
  pub version : ℕ
  pub is_active : Bool
  pub is_default : Bool
  pub columns : RatePlanConfig

pub record QuoteRow : Type 0 where
  pub id : ℕ
  pub property_id : ℕ
  pub resource_id : ℕ
  pub rate_plan_id : ℕ
  pub rate_plan_version : ℕ
  pub mode : PricingMode
  pub check_in : ℕ
  pub check_out : ℕ
  pub adults : ℕ
  pub children : ℕ
  pub line_items : List QuoteLineItem
  pub subtotal_vnd : ℤ
  pub discount_vnd : ℤ
  pub tax_vnd : ℤ
  pub total_vnd : ℤ
  pub discount_code_id : Option ℕ
  pub expires_at : ℕ
  pub used_by_booking_id : Option ℕ

-- The ids of rate_plans stand in the order in which they were made; a resource stands for its
-- property, and a property for its time zone. `last_quote` is the largest id of a quote.
pub record PricingTables : Type 0 where
  pub timezones : ℕ → Option String
  pub resources : ℕ → Option ℕ
  pub rate_plans : ℕ → Option RatePlanRow
  pub plan_ids : List ℕ
  pub rate_plan_rules : ℕ → List RatePlanRule
  pub plan_resources : ℕ → List ℕ
  pub holidays : List VietnamHoliday
  pub quotes : ℕ → Option QuoteRow
  pub last_quote : ℕ

pub data PricingFailure : Type 0 where
  quote_not_found quote_already_used quote_mismatch price_changed rate_plan_not_found
        rate_plan_invalid no_applicable_rate_plan resource_not_found forbidden
        discount_not_applicable :
      PricingFailure
  pricing : PricingError → PricingFailure

abbrev pub PricingCall : Type 0 → Type 0
PricingCall A = Result PricingFailure A

unfoldable pub mode_eq : PricingMode → PricingMode → Bool
mode_eq hourly hourly = true
mode_eq daily daily = true
mode_eq monthly monthly = true
mode_eq _ _ = false

pub record QuoteRequest : Type 0 where
  pub resource_id : ℕ
  pub mode : PricingMode
  pub check_in : ℕ
  pub check_out : ℕ
  pub adults : Option ℕ
  pub children : Option ℕ
  pub rate_plan_id : Option ℕ
  pub discount_code : Option String

pub record ExpectedStay : Type 0 where
  pub resource_id : ℕ
  pub check_in : ℕ
  pub check_out : ℕ
  pub mode : PricingMode

pub record PricingCaller : Type 0 where
  pub authorized : ℕ → Bool
  pub now : ℕ

-- applyDiscountInTx for a code, a subtotal and a property
abbrev pub Voucher : Type 0
Voucher = String → ℤ → ℕ → Option (ℕ × ℕ)
