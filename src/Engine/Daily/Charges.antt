-- ===== src/Engine/Daily/Charges.antt =====
-- What quoteDaily charges: each night of the stay once, at the price of its date, and the fees.
use mathlib.Core.Path.{ap₂}
use native.Mathlib.Nat.{add-zero, add_assoc}
use native.Mathlib.Numerals.{add-one}
use pms_homestay.Prelude.{
  ℕ, zero, suc, ◌+◌, ◌-◌, ◌<◌, ◌≡◌, refl, sym, ap, ◌∙◌, max, Bool, true, false, Bool-cases, inl,
  inr, none, some, List, [], ◌∷◌, ◌++◌, map, if◌then◌else◌, arith, ok,
}
use pms_homestay.Prelude.Int.{ℤ, pos, pos_part, ◌+ℤ◌, ltb_ℤ, sub_ℕ, +ℤ_assoc, int_laws}
use pms_homestay.Calendar.{Date, add_days, diff_calendar_days, ordinal}
use pms_homestay.Calendar.Ordinal.{IsDate, ordinal-days_later}
use pms_homestay.Engine.Types.{
  Intl, PricingInput, RatePlanConfig, VietnamHoliday, QuoteLineItem, Quote, Description, or_else,
  room_charge, night_of, early_checkin, late_checkout, surcharge,
}
use pms_homestay.Engine.Builder.{line, build_quote}
use pms_homestay.Engine.Builder.Totals.{
  amounts, amounts-append, amount-line, one-*ℤ, total-build_quote,
}
use pms_homestay.Engine.Daily.{
  night_price, night_items, nights_between, fee_items, is_early, is_late, daily_items, daily_args,
  quote_daily,
}

-- The prices of the first `n` nights after a date.
unfoldable pub night_total : RatePlanConfig → List Date → Date → ℕ → ℤ
night_total plan holidays ci zero = pos 0
night_total plan holidays ci (suc n) =
    night_total plan holidays ci n +ℤ night_price plan holidays (add_days ci (pos n))

unfoldable pub fee_due : Bool → ℤ → ℤ
fee_due true fee = if ltb_ℤ (pos 0) fee then fee else pos 0
fee_due false fee = pos 0

night_total-next :
    (plan : RatePlanConfig) (hs : List Date) (ci : Date) (n : ℕ)
    → night_total plan hs ci (n + 1)
      ≡ night_total plan hs ci n +ℤ night_price plan hs (add_days ci (pos n))
unfolding night_total
night_total-next plan hs ci n = rw add-one refl

+ℤ_zero : (a : ℤ) → a +ℤ pos 0 ≡ a
+ℤ_zero a = omega int_laws

zero_+ℤ : (a : ℤ) → pos 0 +ℤ a ≡ a
zero_+ℤ a = omega int_laws

amounts-night_items :
    (plan : RatePlanConfig) (hs : List Date) (ci : Date) (left i : ℕ)
    → night_total plan hs ci i +ℤ amounts (night_items plan hs ci left i)
      ≡ night_total plan hs ci (i + left)
unfolding night_items amounts
amounts-night_items plan hs ci zero i = rw add-zero (+ℤ_zero (night_total plan hs ci i))
amounts-night_items plan hs ci (suc left) i =
    let price = night_price plan hs (add_days ci (pos i)) in
    let rest = amounts (night_items plan hs ci left (i + 1)) in
    let first : (line room_charge (night_of (add_days ci (pos i))) (pos 1) price
          (some (add_days ci (pos i)))).amount_vnd
        ≡ price =
      amount-line _ _ (pos 1) price _ ∙ one-*ℤ price in
    rw first (
      sym (+ℤ_assoc (night_total plan hs ci i) price rest)
      ∙ ap (λ (a : ℤ). a +ℤ rest) (sym (night_total-next plan hs ci i))
      ∙ amounts-night_items plan hs ci left (i + 1)
      ∙ ap (night_total plan hs ci) (omega arith))

amounts-all_nights :
    (plan : RatePlanConfig) (hs : List Date) (ci : Date) (n : ℕ)
    → amounts (night_items plan hs ci n 0) ≡ night_total plan hs ci n
unfolding night_total
amounts-all_nights plan hs ci n =
    sym (zero_+ℤ (amounts (night_items plan hs ci n 0)))
    ∙ amounts-night_items plan hs ci n 0
    ∙ ap (night_total plan hs ci) (omega arith)

amounts-fee_items :
    (due : Bool) (d : Description) (fee : ℤ) → amounts (fee_items due d fee) ≡ fee_due due fee
unfolding fee_items fee_due amounts
amounts-fee_items false d fee = refl
amounts-fee_items true d fee = elim (Bool-cases (ltb_ℤ (pos 0) fee)) [
  | inl e ↦ rw e (rw (amount-line surcharge d (pos 1) fee none, one-*ℤ) (+ℤ_zero fee))
  | inr e ↦ rw e refl
]

amounts-daily_items :
    (intl : Intl) (input : PricingInput) (plan : RatePlanConfig) (holidays : List VietnamHoliday)
    → let tz = plan.timezone in
      let ci_date = intl.local_date input.check_in tz in
      let nights = nights_between ci_date (intl.local_date input.check_out tz) in
      amounts (build_quote (daily_args intl input plan holidays)).line_items
      ≡ night_total plan (map (λ h. h.date) holidays) ci_date nights
        +ℤ (fee_due
              (is_early (intl.local_time input.check_in tz) plan.daily_checkin_time)
              (or_else plan.daily_early_checkin_fee_vnd (pos 0))
            +ℤ fee_due
                (is_late (intl.local_time input.check_out tz) plan.daily_checkout_time)
                (or_else plan.daily_late_checkout_fee_vnd (pos 0)))
unfolding build_quote daily_args daily_items
amounts-daily_items intl input plan holidays =
    rw
      (
        amounts-append,
        amounts-append,
        amounts-fee_items _ early_checkin _,
        amounts-fee_items _ late_checkout _,
        amounts-all_nights _ _ _ _,
      )
      refl

nights_between_lem : (a b : Date) → nights_between a b ≡ max 1 (ordinal b - ordinal a)
unfolding nights_between diff_calendar_days
nights_between_lem a b = ground arith

-- A daily stay whose check-out is after its check-in is quoted, and its total is the sum of the
-- prices of its nights, as many as the local dates are apart and one at the least, and of the two
-- fees, each if it is positive and the guest comes before or leaves after the hours of the plan.
pub quote_daily_total :
    (intl : Intl) (input : PricingInput) (plan : RatePlanConfig) (holidays : List VietnamHoliday)
    → input.check_in < input.check_out
    → let tz = plan.timezone in
      let ci_date = intl.local_date input.check_in tz in
      let nights = max 1 (ordinal (intl.local_date input.check_out tz) - ordinal ci_date) in
      (q : Quote) × (quote_daily intl input plan holidays ≡ ok q)
      × (q.total_vnd
          ≡ night_total plan (map (λ h. h.date) holidays) ci_date nights
            +ℤ (fee_due
                  (is_early (intl.local_time input.check_in tz) plan.daily_checkin_time)
                  (or_else plan.daily_early_checkin_fee_vnd (pos 0))
                +ℤ fee_due
                    (is_late (intl.local_time input.check_out tz) plan.daily_checkout_time)
                    (or_else plan.daily_late_checkout_fee_vnd (pos 0))))
unfolding quote_daily
quote_daily_total intl input plan holidays lt = (
  build_quote (daily_args intl input plan holidays),
  ground arith,
  total-build_quote (daily_args intl input plan holidays)
      ∙ rw
          (← nights_between_lem (intl.local_date input.check_in plan.timezone)
            (intl.local_date input.check_out plan.timezone))
          (amounts-daily_items intl input plan holidays),
)

-- The day numbers of the lines that name a night.
unfoldable pub night_numbers : List QuoteLineItem → List ℕ
night_numbers [] = []
night_numbers (li ∷ lis) = elim li.local_date [
  | some d ↦ ordinal d ∷ night_numbers lis
  | none ↦ night_numbers lis
]

unfoldable pub count_up : ℕ → ℕ → List ℕ
count_up c zero = []
count_up c (suc n) = c ∷ count_up (c + 1) n

night_numbers-append :
    (xs ys : List QuoteLineItem)
    → night_numbers ys ≡ []
    → night_numbers (xs ++ ys) ≡ night_numbers xs
unfolding night_numbers
night_numbers-append [] ys e = e
night_numbers-append (x ∷ xs) ys e = ground (arith, night_numbers-append xs ys e)

night_numbers-fee_items :
    (due : Bool) (d : Description) (fee : ℤ) → night_numbers (fee_items due d fee) ≡ []
unfolding night_numbers fee_items line
night_numbers-fee_items due d fee = ground arith

night_numbers-night_items :
    (plan : RatePlanConfig) (hs : List Date) (ci : Date) (left i : ℕ)
    → IsDate ci
    → night_numbers (night_items plan hs ci left i) ≡ count_up (ordinal ci + i) left
unfolding night_numbers night_items line count_up add_days
night_numbers-night_items plan hs ci zero i h = refl
night_numbers-night_items plan hs ci (suc left) i h =
    rw (ordinal-days_later ci i h, night_numbers-night_items plan hs ci left (i + 1) h, add_assoc)
      refl

-- If the local date of the check-in is a date, the price lines of a daily stay name every day from
-- the check-in date up to the day before the check-out date exactly once and in order, and the
-- check-in date alone where the check-out date is not later.
pub daily_items_nights :
    (intl : Intl) (input : PricingInput) (plan : RatePlanConfig) (holidays : List VietnamHoliday)
    → let ci = intl.local_date input.check_in plan.timezone in
      let co = intl.local_date input.check_out plan.timezone in
      IsDate ci
      → night_numbers (daily_items intl input plan holidays)
        ≡ count_up (ordinal ci) (max 1 (ordinal co - ordinal ci))
unfolding daily_items nights_between diff_calendar_days
daily_items_nights intl input plan holidays h =
    let tz = plan.timezone in
    let ci = intl.local_date input.check_in tz in
    let co = intl.local_date input.check_out tz in
    let early =
      fee_items (is_early (intl.local_time input.check_in tz) plan.daily_checkin_time) early_checkin
        (or_else plan.daily_early_checkin_fee_vnd (pos 0)) in
    let late =
      fee_items (is_late (intl.local_time input.check_out tz) plan.daily_checkout_time)
        late_checkout (or_else plan.daily_late_checkout_fee_vnd (pos 0)) in
    night_numbers-append _ (early ++ late) (
      night_numbers-append early late (night_numbers-fee_items _ late_checkout _)
      ∙ night_numbers-fee_items _ early_checkin _)
    ∙ night_numbers-night_items plan (map (λ v. v.date) holidays) ci
        (max 1 (pos_part (sub_ℕ (ordinal co) (ordinal ci)))) 0 h
    ∙ ap₂ count_up (omega arith) (ground arith)
