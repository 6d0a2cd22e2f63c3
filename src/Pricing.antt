-- ===== src/Pricing.antt =====
-- apps/api/src/modules/pricing/pricing.service.ts: quotes that are kept, and their verification when
-- a booking is made. The vouchers are a parameter: the id of the code and what it takes off, where it
-- applies. A request without a code has none, not an empty text.
pub mod Tables
pub mod Verified
mod Tests
use Prim.Native.String.{String}
use pms_homestay.Prelude.{
  ℕ, ◌+◌, ◌*◌, Bool, true, false, not, ◌&&◌, ◌||◌, Option, none, some, List, [], ◌∷◌, ◌++◌, ◌==◌,
  ltb, if◌then◌else◌, includes, keep, Result, ok, err, ◌>>=◌, ◌>>◌, throw_if,
}
use pms_homestay.Prelude.Int.{ℤ, pos, ◌+ℤ◌, ◌-ℤ◌, ltb_ℤ}
use pms_homestay.Calendar.{date_leb}
use pms_homestay.Engine.Types.{
  Intl, PricingMode, PricingInput, RatePlanConfig, RatePlanRule, VietnamHoliday, LineItemType,
  Description, voucher, QuoteLineItem, Quote, PricingError, or_else,
}
use pms_homestay.Engine.Quote.{quote}
use pms_homestay.Pricing.Tables.{
  RatePlanRow, QuoteRow, PricingTables, PricingFailure, pricing, quote_not_found,
  quote_already_used, quote_mismatch, price_changed, rate_plan_not_found, rate_plan_invalid,
  no_applicable_rate_plan, resource_not_found, forbidden, discount_not_applicable, PricingCall,
  mode_eq, QuoteRequest, ExpectedStay, PricingCaller, Voucher,
}

abbrev pub quote_ttl_ms : ℕ
quote_ttl_ms = 900_000

abbrev pub purge_after_ms : ℕ
purge_after_ms = 604_800_000

-- toRatePlanConfig(p, rules, timezone)
unfoldable pub to_rate_plan_config : RatePlanRow → List RatePlanRule → String → RatePlanConfig
to_rate_plan_config p rules timezone = record p.columns {
  mode = p.mode;
  timezone = timezone;
  rules = some rules;
}

-- `property?.timezone ?? 'Asia/Ho_Chi_Minh'`
unfoldable pub timezone_of : Option String → String
timezone_of none = "Asia/Ho_Chi_Minh"
timezone_of (some timezone) = timezone

unfoldable pub is_between : Intl → String → ℕ → ℕ → VietnamHoliday → Bool
is_between intl timezone check_in check_out h =
    date_leb (intl.local_date check_in timezone) h.date
    && date_leb h.date (intl.local_date check_out timezone)

unfoldable pub caught_pricing : Result PricingError Quote → PricingCall Quote
caught_pricing (ok q) = ok q
caught_pricing (err e) = err (pricing e)

-- computeForPlan(tx, plan, timezone, params)
unfoldable pub compute_for_plan :
    Intl → PricingTables → ℕ → RatePlanRow → String → PricingInput → PricingCall Quote
unfolding caught_pricing
compute_for_plan intl db id plan timezone params =
    let rules = db.rate_plan_rules id in
    let holidays = keep (is_between intl timezone params.check_in params.check_out) db.holidays in
    caught_pricing (quote intl params (to_rate_plan_config plan rules timezone) holidays)

unfoldable pub is_applicable : ℕ → PricingMode → RatePlanRow → Bool
is_applicable property_id mode plan =
    plan.property_id == property_id && mode_eq plan.mode mode && plan.is_active

-- The first plan of a list of ids that passes a test
unfoldable pub first_plan :
    (ℕ → RatePlanRow → Bool) → List ℕ → PricingTables → Option (ℕ × RatePlanRow)
first_plan test [] db = none
first_plan test (i ∷ is) db =
    let rest = first_plan test is db in
    elim (db.rate_plans i) [
      | none ↦ rest
      | some plan ↦ if test i plan then some (i, plan) else rest
    ]

unfoldable pub or_plan :
    Option (ℕ × RatePlanRow) → Option (ℕ × RatePlanRow) → Option (ℕ × RatePlanRow)
or_plan none second = second
or_plan (some plan) second = some plan

-- The assigned plans, a default one first
unfoldable pub assigned_plan : ℕ → PricingMode → PricingTables → Option (ℕ × RatePlanRow)
unfolding first_plan or_plan
assigned_plan resource_id mode db =
    let assigned = db.plan_resources resource_id in
    let usable : ℕ → RatePlanRow → Bool =
      λ i plan. includes assigned i && mode_eq plan.mode mode && plan.is_active in
    or_plan (first_plan (λ i plan. usable i plan && plan.is_default) db.plan_ids db)
      (first_plan usable db.plan_ids db)

unfoldable pub default_plan : ℕ → PricingMode → PricingTables → Option (ℕ × RatePlanRow)
unfolding first_plan is_applicable
default_plan property_id mode db =
    first_plan (λ i plan. is_applicable property_id mode plan && plan.is_default) db.plan_ids db

unfoldable pub chosen_plan : ℕ → PricingMode → ℕ → PricingTables → Option (ℕ × RatePlanRow)
unfolding is_applicable
chosen_plan property_id mode id db = elim (db.rate_plans id) [
  | none ↦ none
  | some plan ↦ if is_applicable property_id mode plan then some (id, plan) else none
]

unfoldable pub plan_or : PricingFailure → Option (ℕ × RatePlanRow) → PricingCall (ℕ × RatePlanRow)
plan_or e none = err e
plan_or e (some plan) = ok plan

-- resolvePlan(tx, resource, mode, ratePlanId)
unfoldable pub resolve_plan :
    ℕ → ℕ → PricingMode → Option ℕ → PricingTables → PricingCall (ℕ × RatePlanRow)
unfolding chosen_plan assigned_plan default_plan or_plan plan_or
resolve_plan resource_id property_id mode (some id) db =
    plan_or rate_plan_invalid (chosen_plan property_id mode id db)
resolve_plan resource_id property_id mode none db =
    plan_or no_applicable_rate_plan
      (or_plan (assigned_plan resource_id mode db) (default_plan property_id mode db))

-- What is written of a quote, with the voucher
pub record Priced : Type 0 where
  pub line_items : List QuoteLineItem
  pub discount_vnd : ℤ
  pub total_vnd : ℤ
  pub discount_code_id : Option ℕ

unfoldable pub voucher_line : String → ℕ → QuoteLineItem
voucher_line code amount = record {
  type = LineItemType.discount;
  description = voucher code;
  quantity = pos 1;
  unit_price_vnd = pos 0 -ℤ pos amount;
  amount_vnd = pos 0 -ℤ pos amount;
  local_date = none;
}

unfoldable pub take_off : String → Option (ℕ × ℕ) → Quote → PricingCall Priced
unfolding voucher_line
take_off code none q = err discount_not_applicable
take_off code (some applied) q =
    let discount = q.discount_vnd +ℤ pos applied.1 in
    ok (record {
      line_items = q.line_items ++ (voucher_line code applied.1 ∷ []);
      discount_vnd = discount;
      total_vnd = q.subtotal_vnd -ℤ discount +ℤ q.tax_vnd;
      discount_code_id = some applied.0;
    })

unfoldable pub with_voucher : Option String → Voucher → ℕ → Quote → PricingCall Priced
unfolding take_off
with_voucher none vouchers property_id q = ok (record {
  line_items = q.line_items;
  discount_vnd = q.discount_vnd;
  total_vnd = q.total_vnd;
  discount_code_id = none;
})
with_voucher (some code) vouchers property_id q =
    take_off code (vouchers code q.subtotal_vnd property_id) q

unfoldable pub quote_input : PricingMode → ℕ → ℕ → Option ℕ → Option ℕ → PricingInput
quote_input mode check_in check_out adults children = record {
  mode = mode;
  check_in = check_in;
  check_out = check_out;
  adults = adults;
  children = children;
}

unfoldable pub quote_row : QuoteRequest → ℕ → ℕ → ℕ → RatePlanRow → Quote → Priced → ℕ → QuoteRow
quote_row dto id property_id plan_id plan q priced now = record {
  id = id;
  property_id = property_id;
  resource_id = dto.resource_id;
  rate_plan_id = plan_id;
  rate_plan_version = plan.version;
  mode = dto.mode;
  check_in = dto.check_in;
  check_out = dto.check_out;
  adults = or_else dto.adults 1;
  children = or_else dto.children 0;
  line_items = priced.line_items;
  subtotal_vnd = q.subtotal_vnd;
  discount_vnd = priced.discount_vnd;
  tax_vnd = q.tax_vnd;
  total_vnd = priced.total_vnd;
  discount_code_id = priced.discount_code_id;
  expires_at = now + quote_ttl_ms;
  used_by_booking_id = none;
}

abbrev pub put_quote : ℕ → QuoteRow → (ℕ → Option QuoteRow) → ℕ → Option QuoteRow
put_quote k v f j = if j == k then some v else f j

unfoldable pub property_of_resource : ℕ → PricingTables → PricingCall ℕ
property_of_resource id db = elim (db.resources id) [
  | none ↦ err resource_not_found
  | some property ↦ ok property
]

-- The transaction of quote(), for the property of the resource, and quote(dto, user); the row comes
-- back with the tables.
unfoldable pub quote_tx :
    Intl → Voucher → QuoteRequest → ℕ → ℕ → PricingTables → PricingCall (PricingTables × QuoteRow)
unfolding quote_input
quote_tx intl vouchers dto property_id now db = do
  let timezone = timezone_of (db.timezones property_id)
  plan ← resolve_plan dto.resource_id property_id dto.mode dto.rate_plan_id db
  let params = quote_input dto.mode dto.check_in dto.check_out dto.adults dto.children
  q ← compute_for_plan intl db plan.0 plan.1 timezone params
  priced ← with_voucher dto.discount_code vouchers property_id q
  let row = quote_row dto (db.last_quote + 1) property_id plan.0 plan.1 q priced now
  ok (record db { quotes = put_quote row.id row db.quotes; last_quote = row.id }, row)

unfoldable pub make_quote :
    Intl
    → Voucher
    → QuoteRequest
    → PricingCaller
    → PricingTables
    → PricingCall (PricingTables × QuoteRow)
make_quote intl vouchers dto c db = do
  property_id ← property_of_resource dto.resource_id db
  throw_if (not (c.authorized property_id)) forbidden
  quote_tx intl vouchers dto property_id c.now db

-- purgeExpired(tenantId)
unfoldable pub is_purged : ℕ → QuoteRow → Bool
is_purged now q =
    ltb (q.expires_at + purge_after_ms) now
    && elim q.used_by_booking_id [ none ↦ true | some _ ↦ false ]

unfoldable pub purge_expired : ℕ → PricingTables → PricingTables
unfolding is_purged
purge_expired now db = record db {
  quotes =
      λ i. elim (db.quotes i) [ none ↦ none | some q ↦ if is_purged now q then none else some q ];
}

unfoldable pub is_expected : QuoteRow → ExpectedStay → Bool
is_expected q e =
    q.resource_id == e.resource_id
    && mode_eq q.mode e.mode
    && q.check_in == e.check_in
    && q.check_out == e.check_out

unfoldable pub same_amount : ℤ → ℤ → Bool
same_amount a b = not (ltb_ℤ a b) && not (ltb_ℤ b a)

unfoldable pub plan_row : ℕ → PricingFailure → PricingTables → PricingCall RatePlanRow
plan_row id e db = elim (db.rate_plans id) [ none ↦ err e | some plan ↦ ok plan ]

unfoldable pub load_quote : ℕ → PricingTables → PricingCall QuoteRow
load_quote id db = elim (db.quotes id) [ none ↦ err quote_not_found | some q ↦ ok q ]

abbrev pub is_used : Option ℕ → Bool
is_used none = false
is_used (some booking) = true

-- verifyQuoteForBooking(tx, quoteId, expect)
unfoldable pub verify_quote_for_booking :
    Intl → ℕ → ExpectedStay → ℕ → PricingTables → PricingCall QuoteRow
unfolding is_expected same_amount
verify_quote_for_booking intl id expect now db = do
  q ← load_quote id db
  throw_if (is_used q.used_by_booking_id) quote_already_used
  throw_if (not (is_expected q expect)) quote_mismatch
  throw_if (ltb q.expires_at now) price_changed
  plan ← plan_row q.rate_plan_id price_changed db
  let timezone = timezone_of (db.timezones q.property_id)
  let params = quote_input q.mode q.check_in q.check_out (some q.adults) (some q.children)
  again ← compute_for_plan intl db q.rate_plan_id plan timezone params
  let voucher_portion = q.discount_vnd -ℤ again.discount_vnd
  throw_if (not (same_amount again.total_vnd (q.total_vnd +ℤ voucher_portion))) price_changed
  ok q

-- recomputeTotal(tx, ratePlanId, timezone, params)
unfoldable pub recompute_total : Intl → ℕ → String → PricingInput → PricingTables → PricingCall ℤ
recompute_total intl plan_id timezone params db = do
  plan ← plan_row plan_id rate_plan_not_found db
  again ← compute_for_plan intl db plan_id plan timezone params
  ok again.total_vnd
