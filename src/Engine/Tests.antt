-- ===== src/Engine/Tests.antt =====
-- Runs of the engine on a small plan, and its theorems at concrete stays.
use mathlib.Core.List.{Memᴰ, Perm, mem-cons_self, mem-cons_of_mem}
use mathlib.Core.List.Perm
use mathlib.Core.Logic.{∥∥₁_elim}
use mathlib.Core.Path.{ap₂}
use pms_homestay.Prelude.{
  leb, ℕ, ◌+◌, ◌-◌, ◌*◌, ◌/◌, ◌%◌, ◌<◌, ◌≡◌, refl, sym, ap, ◌∙◌, ◌⊎◌, inl, inr, true, false, none,
  some, List, [], ◌∷◌, keep, max, arith, ok,
}
use pms_homestay.Prelude.Int.{pos, negsuc, ◌+ℤ◌, ◌*ℤ◌}
use pms_homestay.Money.{round_vnd}
use pms_homestay.Calendar.{
  date, days_in_month, is_leap, days_of, next_day, prev_day, days_later, days_earlier, add_days,
  diff_calendar_days, add_months, date_leb, date_ltb, date_eq, ordinal, full_months_between,
  year_start, days_before, month_start,
}
use pms_homestay.Calendar.Ordinal.{IsDate, days_later-IsDate}
use pms_homestay.Engine.Types.{
  Intl, PricingInput, daily, RatePlanConfig, RatePlanRule, VietnamHoliday, Quote, weekend, holiday,
  add_percent, override, percent, room_charge, discount, one_day,
}
use pms_homestay.Engine.Double.{percent_price}
use pms_homestay.Engine.Builder.{BuildArgs, build_quote, line}
use pms_homestay.Engine.Builder.Totals.{amounts, total-build_quote}
use pms_homestay.Engine.Rules.{
  matches_date, rule_leb, insert_rule, sort_rules, apply_rate_plan_rules, price_loop,
  compute_date_price,
}
use pms_homestay.Engine.Rules.Order.{IsRanked, SameRank, apply_rate_plan_rules-IsRanked}
use pms_homestay.Engine.Rules.Price.{compute_date_price-perm, compute_date_price-override}
use pms_homestay.Engine.Daily.{is_early, is_late, daily_items, quote_daily}
use pms_homestay.Engine.Daily.Charges.{
  night_total, fee_due, quote_daily_total, night_numbers, count_up, daily_items_nights,
}
use pms_homestay.Engine.Hourly.{
  local_wall_clock, count_overnight_windows, overnight_loop, window_meets, at_time, extra_blocks_of,
  ceil_div, quote_hourly,
}
use pms_homestay.Engine.Hourly.Windows.{meets_on, count_days, count_overnight_windows_lem}
use pms_homestay.Engine.Hourly.Charges.{quote_hourly_total, extra_blocks_of_least}
use pms_homestay.Engine.Monthly.{quote_monthly}
use pms_homestay.Engine.Monthly.Charges.{charged_days, quote_monthly_total}

-- A zone whose clock shows 2026-01-01 00:00 at instant 0.
abbrev clock : Intl
clock = record {
  local_date = λ t tz. days_later (date 2026 1 1) (t / 86_400_000);
  local_time = λ t tz. t % 86_400_000 / 60_000;
}

abbrev day_ms : ℕ
day_ms = 86_400_000

abbrev hour_ms : ℕ
hour_ms = 3_600_000

-- From 14:00 on day 0 to 12:00 three days later.
abbrev stay : PricingInput
stay = record {
  mode = daily;
  check_in = 14 * hour_ms;
  check_out = 3 * day_ms + 12 * hour_ms;
  adults = none;
  children = none;
}

abbrev weekend_rule : RatePlanRule
weekend_rule = record {
  rule_type = weekend;
  start_date = none;
  end_date = none;
  days_of_week = none;
  price_modifier_type = add_percent;
  price_modifier_value = pos 1500;
  priority = pos 1;
  created_at = 5;
}

abbrev new_year : RatePlanRule
new_year = record {
  rule_type = holiday;
  start_date = none;
  end_date = none;
  days_of_week = none;
  price_modifier_type = override;
  price_modifier_value = pos 900_000;
  priority = pos 9;
  created_at = 7;
}

abbrev plan : RatePlanConfig
plan = record {
  mode = daily;
  timezone = "Asia/Ho_Chi_Minh";
  base_price_vnd = pos 300_000;
  deposit_type = some percent;
  deposit_value = some (pos 3000);
  hourly_base_hours = some 2;
  hourly_extra_block_minutes = some 60;
  hourly_extra_block_price_vnd = some (pos 50_000);
  hourly_overnight_surcharge_vnd = some (pos 80_000);
  hourly_overnight_start = some 1320;
  hourly_overnight_end = some 360;
  daily_checkin_time = some 840;
  daily_checkout_time = some 720;
  daily_early_checkin_fee_vnd = some (pos 100_000);
  daily_late_checkout_fee_vnd = none;
  monthly_includes_utilities = none;
  rules = some (weekend_rule ∷ new_year ∷ []);
}

abbrev tet : List VietnamHoliday
tet = record { date = date 2026 1 1; name = "Tet Duong lich" } ∷ []

first_day-IsDate : IsDate (date 2026 1 1)
unfolding days_in_month is_leap days_of
first_day-IsDate = record { first = omega arith; last = omega arith }

zone-IsDate : (t : ℕ) → IsDate (clock.local_date t "Asia/Ho_Chi_Minh")
zone-IsDate t = days_later-IsDate (date 2026 1 1) (t / 86_400_000) first_day-IsDate

-- The holiday is overridden, and Saturday costs 15% more.
prices :
    (compute_date_price
        (pos 300_000)
        (weekend_rule ∷ new_year ∷ [])
        (date 2026 1 1)
        4
        (date 2026 1 1 ∷ [])
      ≡ pos 900_000)
    × (compute_date_price
          (pos 300_000)
          (weekend_rule ∷ new_year ∷ [])
          (date 2026 1 3)
          6
          (date 2026 1 1 ∷ [])
        ≡ pos 345_000)
unfolding compute_date_price apply_rate_plan_rules sort_rules insert_rule rule_leb matches_date
    price_loop percent_price date_eq
prices = (refl, refl)

total-build_quote_example :
    let args : BuildArgs = record {
      mode = daily;
      line_items =
          line room_charge one_day (pos 1) (pos 300_000) none
          ∷ line discount one_day (pos 1) (negsuc 49_999) none
          ∷ [];
      deposit_type = none;
      deposit_value = none;
      holidays = [];
      notes = none;
    } in
    (build_quote args).total_vnd ≡ amounts (build_quote args).line_items
total-build_quote_example = total-build_quote (record {
  mode = daily;
  line_items =
      line room_charge one_day (pos 1) (pos 300_000) none
      ∷ line discount one_day (pos 1) (negsuc 49_999) none
      ∷ [];
  deposit_type = none;
  deposit_value = none;
  holidays = [];
  notes = none;
})

apply_rate_plan_rules-IsRanked_example :
    let rules = weekend_rule ∷ new_year ∷ [] in
    let d = date 2026 1 1 in
    IsRanked (apply_rate_plan_rules rules d 4 (d ∷ []))
    × Perm
        (apply_rate_plan_rules rules d 4 (d ∷ []))
        (keep (λ r. matches_date r d 4 (d ∷ [])) rules)
apply_rate_plan_rules-IsRanked_example =
    apply_rate_plan_rules-IsRanked (weekend_rule ∷ new_year ∷ []) (date 2026 1 1) 4
      (date 2026 1 1 ∷ [])

quote_daily_total_example :
    (q : Quote) × (quote_daily clock stay plan tet ≡ ok q)
    × (q.total_vnd
        ≡ night_total plan (date 2026 1 1 ∷ []) (days_later (date 2026 1 1) 0) (
            max 1 (ordinal (days_later (date 2026 1 1) 3) - ordinal (days_later (date 2026 1 1) 0)))
          +ℤ (fee_due (is_early 840 (some 840)) (pos 100_000)
              +ℤ fee_due (is_late 720 (some 720)) (pos 0)))
quote_daily_total_example = quote_daily_total clock stay plan tet (omega arith)

daily_items_nights_example :
    night_numbers (daily_items clock stay plan tet)
    ≡ count_up
        (ordinal (days_later (date 2026 1 1) 0))
        (max 1 (ordinal (days_later (date 2026 1 1) 3) - ordinal (days_later (date 2026 1 1) 0)))
daily_items_nights_example = daily_items_nights clock stay plan tet (zone-IsDate (14 * hour_ms))

quote_hourly_total_example :
    (q : Quote) × (quote_hourly clock stay plan tet ≡ ok q)
    × (q.total_vnd
        ≡ pos 300_000
          +ℤ (pos (extra_blocks_of (3 * day_ms - 2 * hour_ms) 2 60) *ℤ pos 50_000
              +ℤ pos (
                  count_overnight_windows clock
                    (14 * hour_ms)
                    (3 * day_ms + 12 * hour_ms)
                    (some 1320)
                    (some 360)
                    "Asia/Ho_Chi_Minh")
                *ℤ pos 80_000))
quote_hourly_total_example = quote_hourly_total clock stay plan tet (omega arith)

in_order : date_leb (days_later (date 2026 1 1) 0) (days_later (date 2026 1 1) 3) ≡ true
unfolding date_leb date_ltb days_later next_day days_in_month is_leap days_of
in_order = refl

check_out_number : ordinal (days_later (date 2026 1 1) 3) < 740_000
unfolding ordinal days_later next_day days_in_month is_leap days_of month_start year_start
    days_before
check_out_number = omega arith

month_counted : 0 < (days_later (date 2026 1 1) 0).month
unfolding days_later
month_counted = omega arith

count_overnight_windows_lem_example :
    count_overnight_windows clock
      (14 * hour_ms)
      (3 * day_ms + 12 * hour_ms)
      (some 1320)
      (some 360)
      "Asia/Ho_Chi_Minh"
    ≡ count_days
        (meets_on
          (local_wall_clock clock (14 * hour_ms) "Asia/Ho_Chi_Minh")
          (local_wall_clock clock (3 * day_ms + 12 * hour_ms) "Asia/Ho_Chi_Minh")
          1320
          360)
        0
        740_000
count_overnight_windows_lem_example =
    count_overnight_windows_lem clock (14 * hour_ms) (3 * day_ms + 12 * hour_ms) 1320 360 740_000
      "Asia/Ho_Chi_Minh" (zone-IsDate (14 * hour_ms)) (zone-IsDate (3 * day_ms + 12 * hour_ms))
      month_counted in_order (omega arith) (omega arith) check_out_number

quote_monthly_total_example :
    let ci = days_later (date 2026 1 1) 0 in
    let co = days_later (date 2026 1 1) 3 in
    let months = full_months_between ci co in
    (q : Quote) × (days : ℕ) × (quote_monthly clock stay plan tet ≡ ok q)
    × (ordinal (add_months ci months) + days ≡ ordinal co)
    × (days < 31)
    × (q.total_vnd
        ≡ pos months *ℤ pos 300_000 +ℤ pos (charged_days months days) *ℤ round_vnd (pos 300_000) 30)
quote_monthly_total_example =
    quote_monthly_total clock stay plan tet (omega arith) (zone-IsDate (14 * hour_ms))
      (zone-IsDate (3 * day_ms + 12 * hour_ms)) in_order

-- A list of the two rules above.
abbrev both : List RatePlanRule
both = weekend_rule ∷ new_year ∷ []

member_cases : (r : RatePlanRule) → Memᴰ r both → (r ≡ weekend_rule) ⊎ (r ≡ new_year)
member_cases r (Memᴰ.head e) = inl e
member_cases r (Memᴰ.tail (Memᴰ.head e)) = inr e
member_cases r (Memᴰ.tail (Memᴰ.tail m)) = elim m [ ]

rule_set : IsSet RatePlanRule
rule_set = hlevel

-- The two rules rank differently, and the holiday rule ranks first.
ranks : (rule_leb weekend_rule new_year ≡ false) × (rule_leb new_year weekend_rule ≡ true)
unfolding rule_leb
ranks = (refl, refl)

same_of_rank :
    (x y : RatePlanRule)
    → (x ≡ weekend_rule) ⊎ (x ≡ new_year)
    → (y ≡ weekend_rule) ⊎ (y ≡ new_year)
    → SameRank x y
    → x ≡ y
same_of_rank x y (inl e) (inl f) same = e ∙ sym f
same_of_rank x y (inr e) (inr f) same = e ∙ sym f
same_of_rank x y (inl e) (inr f) same =
    let h : rule_leb weekend_rule new_year ≡ true = ap₂ rule_leb (sym e) (sym f) ∙ same.0 in
    cc (ranks.0, h)
same_of_rank x y (inr e) (inl f) same =
    let h : rule_leb weekend_rule new_year ≡ true = ap₂ rule_leb (sym f) (sym e) ∙ same.1 in
    cc (ranks.0, h)

compute_date_price-perm_example :
    let d = date 2026 1 1 in
    compute_date_price (pos 300_000) both d 4 (d ∷ [])
    ≡ compute_date_price (pos 300_000) (new_year ∷ weekend_rule ∷ []) d 4 (d ∷ [])
compute_date_price-perm_example =
    compute_date_price-perm (pos 300_000) both (new_year ∷ weekend_rule ∷ []) (date 2026 1 1) 4
      (date 2026 1 1 ∷ []) (Perm.swap new_year weekend_rule [])
      (λ x y i j _ _ same. ∥∥₁_elim i (rule_set x y) (λ m.
        ∥∥₁_elim j (rule_set x y)
          (λ n. same_of_rank x y (member_cases x m) (member_cases y n) same)))

first_of_both :
    (s : RatePlanRule)
    → (s ≡ weekend_rule) ⊎ (s ≡ new_year)
    → rule_leb s new_year ≡ true
    → s ≡ new_year
first_of_both s (inl e) h = cc (ranks.0, ap (λ r. rule_leb r new_year) (sym e) ∙ h)
first_of_both s (inr e) h = e

new_year_matches : matches_date new_year (date 2026 1 1) 4 (date 2026 1 1 ∷ []) ≡ true
unfolding matches_date date_eq
new_year_matches = refl

compute_date_price-override_example :
    compute_date_price (pos 300_000) both (date 2026 1 1) 4 (date 2026 1 1 ∷ []) ≡ pos 900_000
compute_date_price-override_example =
    compute_date_price-override (pos 300_000) both (date 2026 1 1) 4 (date 2026 1 1 ∷ []) new_year
      (mem-cons_of_mem weekend_rule mem-cons_self) new_year_matches refl
      (λ s i _ h. ∥∥₁_elim i (rule_set s new_year) (λ m. first_of_both s (member_cases s m) h))

extra_blocks_of_least_example :
    leb (extra_blocks_of (5 * hour_ms + 1) 2 60) 4
    ≡ leb (5 * hour_ms + 1) (2 * 60 * 60_000 + 4 * (60 * 60_000))
extra_blocks_of_least_example = extra_blocks_of_least (5 * hour_ms + 1) 2 60 4 (omega arith)

-- Half a minute past a base package of two hours is one block more.
half_minute : extra_blocks_of (2 * hour_ms + 30_000) 2 30 ≡ 1
unfolding extra_blocks_of ceil_div
half_minute = refl

-- From 05:00 to 23:00 of one day, which are eighteen hours, a stay meets two night windows.
two_windows :
    count_overnight_windows clock
      (5 * hour_ms)
      (23 * hour_ms)
      (some 1320)
      (some 360)
      "Asia/Ho_Chi_Minh"
    ≡ 2
unfolding count_overnight_windows local_wall_clock overnight_loop diff_calendar_days ordinal
    month_start year_start add_days days_earlier prev_day days_later days_before days_of is_leap
    days_in_month date_leb next_day window_meets at_time date_ltb
two_windows = refl
