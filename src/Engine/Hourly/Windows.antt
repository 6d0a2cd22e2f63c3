-- ===== src/Engine/Hourly/Windows.antt =====
-- The night windows that quoteHourly counts: none that meets the stay is missed.
use Prim.Native.String.{String}
use native.Mathlib.Nat.{add-zero, zero-add, suc-add}
use pms_homestay.Prelude.{
  ℕ, zero, suc, ◌+◌, ◌-◌, ◌*◌, ◌≤◌, ◌<◌, ◌≡◌, refl, sym, ◌∙◌, Bool, true, false, ◌&&◌, some, ltb,
  leb, Bool-cases, inl, inr, if◌then◌else◌, arith,
}
use pms_homestay.Prelude.Int.{pos, negsuc, pos_part}
use pms_homestay.Calendar.{
  Date, add_days, days_earlier, prev_day, date_leb, ordinal, diff_calendar_days,
}
use pms_homestay.Calendar.Ordinal.{
  IsDate, date_leb-ordinal, days_later-IsDate, ordinal-days_later, month_start-suc,
  days_in_month_bounds,
}
use pms_homestay.Engine.Types.{Intl}
use pms_homestay.Engine.Hourly.{
  at_time, local_wall_clock, window_meets, overnight_loop, count_overnight_windows, day_minutes,
}

-- Does the stay, in minutes of local time, meet the window that starts on day number `k`?
unfoldable pub meets_on : ℕ → ℕ → ℕ → ℕ → ℕ → Bool
meets_on ci co start end k =
    ltb ci ((if leb end start then k + 1 else k) * day_minutes + end)
    && ltb (k * day_minutes + start) co

-- How many of the days `first`, `first + 1`, ..., `n` of them, have the property?
unfoldable pub count_days : (ℕ → Bool) → ℕ → ℕ → ℕ
count_days p first zero = 0
count_days p first (suc n) = (if p first then 1 else 0) + count_days p (first + 1) n

count_days-append :
    (p : ℕ → Bool) (first n m : ℕ)
    → count_days p first (n + m) ≡ count_days p first n + count_days p (first + n) m
unfolding count_days
count_days-append p first zero m = rw (zero-add, add-zero) (omega arith)
count_days-append p first (suc n) m =
    let e : first + 1 + n ≡ first + suc n = omega arith in
    rw (suc-add, count_days-append p (first + 1) n m, e) (omega arith)

count_days-first :
    (p : ℕ → Bool) (first n count : ℕ)
    → (if p first then count + 1 else count) + count_days p (first + 1) n
      ≡ count + count_days p first (suc n)
unfolding count_days
count_days-first p first n count = ground arith

count_days-none :
    (p : ℕ → Bool) (first n : ℕ)
    → ((k : ℕ) → first ≤ k → k < first + n → p k ≡ false)
    → count_days p first n ≡ 0
unfolding count_days
count_days-none p first zero h = refl
count_days-none p first (suc n) h =
    rw (h first (omega arith) (omega arith))
      (rw (count_days-none p (first + 1) n (λ k le lt. h k (omega arith) (omega arith))) refl)

tomorrow :
    (a : Date)
    → IsDate a
    → IsDate (add_days a (pos 1)) × (ordinal (add_days a (pos 1)) ≡ ordinal a + 1)
unfolding add_days
tomorrow a h = (days_later-IsDate a 1 h, ordinal-days_later a 1 h)

-- The day before a date that is not the very first one.
yesterday :
    (a : Date)
    → IsDate a
    → 0 < a.month
    → IsDate (add_days a (negsuc 0)) × (ordinal (add_days a (negsuc 0)) + 1 ≡ ordinal a)
unfolding add_days days_earlier prev_day ordinal
yesterday a h before =
    let e : a.month - 1 + 1 ≡ a.month = omega arith in
    (
      ground (arith, days_in_month_bounds (a.month - 1)),
      ground (arith, rw e at (month_start-suc (a.month - 1)), days_in_month_bounds (a.month - 1)),
    )

window_meets-ordinal :
    (ci co start end : ℕ) (a : Date)
    → IsDate a
    → window_meets ci co start end a ≡ meets_on ci co start end (ordinal a)
unfolding window_meets meets_on at_time
window_meets-ordinal ci co start end a h = ground (arith, tomorrow a h)

-- With enough rounds the loop counts the days from the cursor to the last date.
overnight_loop_lem :
    (fuel ci co start end : ℕ) (last cursor : Date) (count : ℕ)
    → IsDate last
    → IsDate cursor
    → ordinal last < ordinal cursor + fuel
    → overnight_loop fuel (window_meets ci co start end) last cursor count
      ≡ count
        + count_days (meets_on ci co start end) (ordinal cursor) (ordinal last + 1 - ordinal cursor)
unfolding overnight_loop count_days
overnight_loop_lem zero ci co start end last cursor count hl hc enough =
    let e : ordinal last + 1 - ordinal cursor ≡ 0 = omega arith in rw e (sym (add-zero count))
overnight_loop_lem (suc fuel) ci co start end last cursor count hl hc enough =
    elim (Bool-cases (date_leb cursor last)) [
      | inl more ↦
          let (next, number) = tomorrow cursor hc in
          let le = date_leb-ordinal cursor last hc hl in
          let e : ordinal last + 1 - ordinal cursor
              ≡ suc (ordinal last + 1 - (ordinal cursor + 1)) =
            ground arith in
          rw
            (
              more,
              overnight_loop_lem fuel ci co start end last (add_days cursor (pos 1)) _ hl next
                  (omega arith),
              number,
              e,
              window_meets-ordinal ci co start end cursor hc,
            )
            (count_days-first (meets_on ci co start end) (ordinal cursor)
              (ordinal last + 1 - (ordinal cursor + 1)) count)
      | inr done ↦
          let le = date_leb-ordinal cursor last hc hl in
          let e : ordinal last + 1 - ordinal cursor ≡ 0 = ground arith in
          rw (done, e) (sym (add-zero count))
    ]

early_days :
    (ci co start end day k : ℕ)
    → end < day_minutes
    → day * day_minutes ≤ ci
    → k + 1 < day
    → meets_on ci co start end k ≡ false
unfolding meets_on
early_days ci co start end day k he hd lt = ground arith

late_days :
    (ci co start end day k : ℕ)
    → co < (day + 1) * day_minutes
    → day < k
    → meets_on ci co start end k ≡ false
unfolding meets_on
late_days ci co start end day k hc lt = ground arith

-- The count of hourly night windows is right: for local dates and times of day that are valid and
-- in order, after the first month of the year 0, the windows counted from the eve of the check-in to
-- the check-out date are all the windows that meet the stay, of the windows that start on any day
-- before day number `n`, for every `n` past the check-out date.
pub count_overnight_windows_lem :
    (intl : Intl) (check_in check_out start end n : ℕ) (tz : String)
    → let a = intl.local_date check_in tz in
      let b = intl.local_date check_out tz in
      IsDate a
      → IsDate b
      → 0 < a.month
      → date_leb a b ≡ true
      → intl.local_time check_out tz < day_minutes
      → end < day_minutes
      → ordinal b < n
      → count_overnight_windows intl check_in check_out (some start) (some end) tz
        ≡ count_days
            (meets_on
              (local_wall_clock intl check_in tz)
              (local_wall_clock intl check_out tz)
              start
              end)
            0
            n
unfolding count_overnight_windows
count_overnight_windows_lem intl check_in check_out start end n tz ha hb month le hour he past =
    let a = intl.local_date check_in tz in
    let b = intl.local_date check_out tz in
    let ci = local_wall_clock intl check_in tz in
    let co = local_wall_clock intl check_out tz in
    let p = meets_on ci co start end in
    let (hf, eve) = yesterday a ha month in
    let order : ordinal a ≤ ordinal b = ground (arith, date_leb-ordinal a b ha hb) in
    let first = ordinal (add_days a (negsuc 0)) in
    let len = ordinal b + 1 - first in
    let rest = n - (ordinal b + 1) in
    let ci_le : ordinal a * day_minutes ≤ ci = unfold local_wall_clock at_time in omega arith in
    let co_lt : co < (ordinal b + 1) * day_minutes =
      unfold local_wall_clock at_time in omega arith in
    let before =
      count_days-none p 0 first
        (λ k _ lt. early_days ci co start end (ordinal a) k he ci_le (omega arith)) in
    let after =
      count_days-none p (first + len) rest
        (λ k ge _. late_days ci co start end (ordinal b) k co_lt (omega arith)) in
    let split : first + (len + rest) ≡ n = omega arith in
    overnight_loop_lem (pos_part (diff_calendar_days (add_days a (negsuc 0)) b) + 1) ci co start end
      b (add_days a (negsuc 0)) 0 hb hf (unfold diff_calendar_days in ground arith)
    ∙ zero-add (count_days p first len)
    ∙ sym (
        rw
          (
            ← split,
            count_days-append p 0 first (len + rest),
            before,
            zero-add,
            zero-add,
            count_days-append p first len rest,
            after,
          )
          (add-zero (count_days p first len)))
