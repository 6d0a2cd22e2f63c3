-- ===== src/Engine/Hourly.antt =====
-- hourly.ts: the price of a stay by hours. A stay is measured in milliseconds: its minutes over
-- the minutes of a block are the same fraction, and Math.ceil is taken of it.
pub mod Windows
pub mod Charges
use Prim.Native.String.{String}
use pms_homestay.Prelude.{
  ℕ, zero, suc, ◌+◌, ◌-◌, ◌*◌, ◌/◌, Bool, true, false, ◌&&◌, Option, none, some, List, [], ◌∷◌,
  ◌++◌, ltb, leb, if◌then◌else◌, Result, ok, err,
}
use pms_homestay.Prelude.Int.{ℤ, pos, negsuc, pos_part, ltb_ℤ}
use pms_homestay.Calendar.{Date, add_days, diff_calendar_days, date_leb, ordinal}
use pms_homestay.Engine.Types.{
  Intl, PricingInput, RatePlanConfig, VietnamHoliday, QuoteLineItem, Quote, PricingError,
  checkout_before_checkin, room_charge, surcharge, Description, base_package, extra_blocks,
  overnight, hourly, or_else,
}
use pms_homestay.Engine.Builder.{line, BuildArgs, build_quote}

abbrev pub day_minutes : ℕ
day_minutes = 1440

-- new Date(`${date}T${time}:00.000Z`), in minutes
unfoldable pub at_time : Date → ℕ → ℕ
at_time date time = ordinal date * day_minutes + time

-- localWallClock(instant, tz), in minutes
unfoldable pub local_wall_clock : Intl → ℕ → String → ℕ
local_wall_clock intl instant tz = at_time (intl.local_date instant tz) (intl.local_time instant tz)

-- Does the stay meet the window that starts on the day of the cursor?
unfoldable pub window_meets : ℕ → ℕ → ℕ → ℕ → Date → Bool
window_meets ci co start end cursor =
    let win_start = at_time cursor start in
    let win_end = at_time (if leb end start then add_days cursor (pos 1) else cursor) end in
    ltb ci win_end && ltb win_start co

-- `while (cursor <= lastDate)` with fuel
unfoldable pub overnight_loop : ℕ → (Date → Bool) → Date → Date → ℕ → ℕ
overnight_loop zero meets last cursor count = count
overnight_loop (suc fuel) meets last cursor count =
    let rest =
      overnight_loop fuel meets last (add_days cursor (pos 1))
        (if meets cursor then count + 1 else count) in
    if date_leb cursor last then rest else count

-- countOvernightWindows(checkIn, checkOut, start, end, tz). The days from the first cursor to the
-- last date are rounds enough.
unfoldable pub count_overnight_windows : Intl → ℕ → ℕ → Option ℕ → Option ℕ → String → ℕ
count_overnight_windows intl check_in check_out (some start) (some end) tz =
    let ci = local_wall_clock intl check_in tz in
    let co = local_wall_clock intl check_out tz in
    let last = intl.local_date check_out tz in
    let first = add_days (intl.local_date check_in tz) (negsuc 0) in
    overnight_loop (pos_part (diff_calendar_days first last) + 1) (window_meets ci co start end)
      last first 0
count_overnight_windows intl check_in check_out _ _ tz = 0

-- Math.ceil(extraMinutes / blockMinutes), for the milliseconds of both.
unfoldable pub ceil_div : ℕ → ℕ → ℕ
ceil_div n d = (n + (d - 1)) / d

unfoldable pub extra_blocks_of : ℕ → ℕ → ℕ → ℕ
extra_blocks_of stay_ms base_hours block_minutes =
    if ltb 0 block_minutes
    then ceil_div (stay_ms - base_hours * 60 * 60_000) (block_minutes * 60_000)
    else 0

-- A surcharge line for `n` units, if there are any and they cost something.
unfoldable pub surcharge_items : Description → ℕ → ℤ → List QuoteLineItem
surcharge_items description n price =
    if ltb 0 n && ltb_ℤ (pos 0) price
    then line surcharge description (pos n) price none ∷ []
    else []

-- The price lines of a stay.
unfoldable pub hourly_items :
    Intl → PricingInput → RatePlanConfig → List VietnamHoliday → List QuoteLineItem
hourly_items intl input plan holidays =
    let base_hours = or_else plan.hourly_base_hours 0 in
    let block_minutes = or_else plan.hourly_extra_block_minutes 60 in
    let blocks = extra_blocks_of (input.check_out - input.check_in) base_hours block_minutes in
    let overnight_count =
      count_overnight_windows intl input.check_in input.check_out plan.hourly_overnight_start
        plan.hourly_overnight_end plan.timezone in
    line room_charge (base_package base_hours) (pos 1) plan.base_price_vnd none
    ∷ (surcharge_items (extra_blocks blocks block_minutes) blocks
          (or_else plan.hourly_extra_block_price_vnd (pos 0))
        ++ surcharge_items overnight overnight_count
            (or_else plan.hourly_overnight_surcharge_vnd (pos 0)))

unfoldable pub hourly_args : Intl → PricingInput → RatePlanConfig → List VietnamHoliday → BuildArgs
hourly_args intl input plan holidays = record {
  mode = hourly;
  line_items = hourly_items intl input plan holidays;
  deposit_type = plan.deposit_type;
  deposit_value = plan.deposit_value;
  holidays = [];
  notes = none;
}

-- quoteHourly(input, plan, holidays)
unfoldable pub quote_hourly :
    Intl → PricingInput → RatePlanConfig → List VietnamHoliday → Result PricingError Quote
quote_hourly intl input plan holidays =
    if leb input.check_out input.check_in
    then err checkout_before_checkin
    else ok (build_quote (hourly_args intl input plan holidays))
