-- ===== src/Engine/Rules.antt =====
-- rules.ts: which rules of a rate plan apply to a date, in which order, and the price that they
-- make. Array.prototype.sort is the stable insertion sort for the same comparison.
pub mod Order
pub mod Price
use pms_homestay.Prelude.{
  ℕ, ◌≡◌, Bool, true, false, not, ◌&&◌, ◌||◌, Option, none, some, List, [], ◌∷◌, ltb, leb, ◌==◌,
  if◌then◌else◌, keep, includes,
}
use pms_homestay.Prelude.Int.{ℤ, ◌+ℤ◌, ltb_ℤ}
use pms_homestay.Calendar.{Date, date_ltb, date_eq}
use pms_homestay.Engine.Types.{
  RatePlanRule, RatePlanRuleType, weekday, weekend, holiday, season, date_range, PriceModifierType,
  add_fixed, add_percent, override,
}
use pms_homestay.Engine.Double.{percent_price}

abbrev pub has_date : List Date → Date → Bool
has_date [] d = false
has_date (x ∷ xs) d = date_eq x d || has_date xs d

-- `rule.startDate && localDate < rule.startDate`, and the same for the end
unfoldable pub starts_later : Option Date → Date → Bool
starts_later none d = false
starts_later (some s) d = date_ltb d s

unfoldable pub ends_before : Option Date → Date → Bool
ends_before none d = false
ends_before (some e) d = date_ltb e d

-- The days that a rule type stands for when it lists none.
unfoldable pub default_day : RatePlanRuleType → ℕ → Bool
default_day weekend dow = dow == 0 || dow == 6
default_day weekday dow = not (ltb dow 1) && not (ltb 5 dow)
default_day _ dow = true

unfoldable pub day_fits : RatePlanRuleType → Option (List ℕ) → ℕ → Bool
unfolding default_day
day_fits t none dow = default_day t dow
day_fits t (some []) dow = default_day t dow
day_fits t (some (x ∷ xs)) dow = includes (x ∷ xs) dow

unfoldable pub holiday_fits : RatePlanRuleType → List Date → Date → Bool
holiday_fits holiday holidays d = has_date holidays d
holiday_fits _ holidays d = true

-- matchesDate(rule, localDate, dow, holidays)
unfoldable pub matches_date : RatePlanRule → Date → ℕ → List Date → Bool
unfolding starts_later ends_before day_fits holiday_fits
matches_date rule local_date dow holidays =
    if starts_later rule.start_date local_date
    then false
    else if ends_before rule.end_date local_date
    then false
    else if not (day_fits rule.rule_type rule.days_of_week dow)
    then false
    else holiday_fits rule.rule_type holidays local_date

-- The comparison `b.priority - a.priority || createdMs(a) - createdMs(b)` is not positive.
unfoldable pub rule_leb : RatePlanRule → RatePlanRule → Bool
rule_leb a b =
    if ltb_ℤ b.priority a.priority
    then true
    else if ltb_ℤ a.priority b.priority
    then false
    else leb a.created_at b.created_at

unfoldable pub insert_rule : RatePlanRule → List RatePlanRule → List RatePlanRule
insert_rule x [] = x ∷ []
insert_rule x (y ∷ ys) = if rule_leb x y then x ∷ y ∷ ys else y ∷ insert_rule x ys

unfoldable pub sort_rules : List RatePlanRule → List RatePlanRule
sort_rules [] = []
sort_rules (x ∷ xs) = insert_rule x (sort_rules xs)

-- applyRatePlanRules(rules, localDate, dow, holidays)
unfoldable pub apply_rate_plan_rules : List RatePlanRule → Date → ℕ → List Date → List RatePlanRule
apply_rate_plan_rules rules local_date dow holidays =
    sort_rules (keep (λ r. matches_date r local_date dow holidays) rules)

-- The loop of computeDatePrice.
unfoldable pub price_loop : ℤ → List RatePlanRule → ℤ
price_loop price [] = price
price_loop price (rule ∷ rules) = elim rule.price_modifier_type [
  | override ↦ rule.price_modifier_value
  | add_fixed ↦ price_loop (price +ℤ rule.price_modifier_value) rules
  | add_percent ↦ price_loop (percent_price price rule.price_modifier_value) rules
]

-- computeDatePrice(basePriceVnd, rules, localDate, dow, holidays)
unfoldable pub compute_date_price : ℤ → List RatePlanRule → Date → ℕ → List Date → ℤ
compute_date_price base_price_vnd rules local_date dow holidays =
    price_loop base_price_vnd (apply_rate_plan_rules rules local_date dow holidays)
