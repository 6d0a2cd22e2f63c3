-- ===== src/Engine/Hourly/Charges.antt =====
-- What quoteHourly charges: the base package, the started extra blocks and the night windows.
use native.Mathlib.Nat.{add-mul, one-mul, div-lt_iff_lt-mul}
use pms_homestay.Prelude.{
  leb, ap, ℕ, ◌+◌, ◌-◌, ◌*◌, ◌≤◌, ◌<◌, ◌≡◌, refl, ◌∙◌, none, List, arith, ok,
}
use pms_homestay.Prelude.Int.{ℤ, pos, pos_part, ◌+ℤ◌, ◌*ℤ◌}
use pms_homestay.Engine.Types.{
  Intl, PricingInput, RatePlanConfig, VietnamHoliday, Quote, Description, or_else, room_charge,
  surcharge, extra_blocks, overnight,
}
use pms_homestay.Engine.Builder.{build_quote}
use pms_homestay.Engine.Builder.Totals.{
  amounts, amounts-append, amount-line, one-*ℤ, total-build_quote,
}
use pms_homestay.Engine.Hourly.{
  ceil_div, extra_blocks_of, surcharge_items, count_overnight_windows, hourly_items, hourly_args,
  quote_hourly,
}

-- Math.ceil covers the extra time, and one block less would not.
pub ceil_div_least : (n d : ℕ) → 0 < d → (n ≤ ceil_div n d * d) × (ceil_div n d * d < n + d)
unfolding ceil_div
ceil_div_least n d h = grind arith

-- A price that is not positive counts as nothing.
abbrev pub positive : ℤ → ℤ
positive price = pos (pos_part price)

amounts-surcharge_items :
    (d : Description) (n : ℕ) (price : ℤ)
    → amounts (surcharge_items d n price) ≡ pos n *ℤ positive price
unfolding surcharge_items amounts ◌*ℤ◌ ◌+ℤ◌
amounts-surcharge_items d n price = ground (arith, amount-line surcharge d (pos n) price none)

-- An hourly stay whose check-out is after its check-in is quoted, and its total is the price of
-- the base package, the price of an extra block for each block, and the overnight surcharge for
-- each night window; a price below zero counts as zero.
pub quote_hourly_total :
    (intl : Intl) (input : PricingInput) (plan : RatePlanConfig) (holidays : List VietnamHoliday)
    → input.check_in < input.check_out
    → let blocks =
        extra_blocks_of
          (input.check_out - input.check_in)
          (or_else plan.hourly_base_hours 0)
          (or_else plan.hourly_extra_block_minutes 60) in
      let windows =
        count_overnight_windows intl input.check_in input.check_out plan.hourly_overnight_start
          plan.hourly_overnight_end plan.timezone in
      (q : Quote) × (quote_hourly intl input plan holidays ≡ ok q)
      × (q.total_vnd
          ≡ plan.base_price_vnd
            +ℤ (pos blocks *ℤ positive (or_else plan.hourly_extra_block_price_vnd (pos 0))
                +ℤ pos windows *ℤ positive (or_else plan.hourly_overnight_surcharge_vnd (pos 0))))
unfolding quote_hourly
quote_hourly_total intl input plan holidays lt = (
  build_quote (hourly_args intl input plan holidays),
  ground arith,
  total-build_quote (hourly_args intl input plan holidays)
      ∙ (unfold build_quote hourly_args hourly_items amounts in
          rw
            (
              amount-line room_charge _ (pos 1) plan.base_price_vnd none,
              one-*ℤ,
              amounts-append,
              amounts-surcharge_items (extra_blocks _ _) _ _,
              amounts-surcharge_items overnight _ _,
            )
            refl),
)

ceil_div-le : (e k n : ℕ) → 0 < k → (ceil_div e k ≤ n → e ≤ n * k) × (e ≤ n * k → ceil_div e k ≤ n)
unfolding ceil_div
ceil_div-le e k n hk =
    let (there, back) = div-lt_iff_lt-mul {k = k} {x = e + (k - 1)} {y = n + 1} hk in
    let split : (n + 1) * k ≡ n * k + k = add-mul n 1 k ∙ ap (λ x. n * k + x) (one-mul k) in
    (
      λ h. let lt = there (omega arith) in omega (arith, split, lt),
      λ h. let lt = back (omega arith) in omega (arith, lt),
    )

-- If an extra block has any minutes, n extra blocks are enough to charge exactly if the base hours
-- and n blocks last as long as the stay does, to the millisecond: the number charged is the least
-- that does.
pub extra_blocks_of_least :
    (stay_ms base_hours block_minutes n : ℕ)
    → 0 < block_minutes
    → leb (extra_blocks_of stay_ms base_hours block_minutes) n
      ≡ leb stay_ms (base_hours * 60 * 60_000 + n * (block_minutes * 60_000))
unfolding extra_blocks_of
extra_blocks_of_least stay_ms base_hours block_minutes n h =
    let (there, back) =
      ceil_div-le (stay_ms - base_hours * 60 * 60_000) (block_minutes * 60_000) n (omega arith) in
    ground arith
