-- ===== src/Engine/Double.antt =====
-- The one expression of the engine whose value depends on binary floating point, that of
-- rules.ts: roundVnd(price * (1 + v / 10_000)). The magnitude of a double is counted in units of
-- 2^-80, which is exact for the numbers that occur: v / 10_000 is 0 or at least 2^-14, and so its
-- 53 bits end above 2^-67.
mod Tests
use pms_homestay.Prelude.{
  ℕ, zero, suc, ◌+◌, ◌-◌, ◌*◌, ◌/◌, ◌%◌, ◌^◌, Bool, ltb, ◌==◌, if◌then◌else◌,
}
use pms_homestay.Prelude.Int.{ℤ, pos, negsuc, pos_part, neg_part, ◌+ℤ◌, ◌*ℤ◌}
use pms_homestay.Money.{round_half_up, with_sign, abs}

abbrev pub one : ℕ
one = 2 ^ 80

-- The weight of the last of 53 bits in a number of that size.
unfoldable pub last_place : ℕ → ℕ → ℕ → ℕ
last_place zero m u = u
last_place (suc fuel) m u =
    let rest = last_place fuel m (2 * u) in if ltb m (2 ^ 53 * u) then u else rest

-- n / d rounded to 53 bits, a tie to the even neighbour.
unfoldable pub round_double : ℕ → ℕ → ℕ
unfolding last_place
round_double n d =
    let u = last_place 1024 (n / d) 1 in
    let t = n / (d * u) in
    let r = 2 * (n % (d * u)) in
    if ltb r (d * u) then t * u else if r == d * u then (t + t % 2) * u else (t + 1) * u

-- 1 + v / 10_000
unfoldable pub factor : ℤ → ℤ
unfolding round_double ◌+ℤ◌ with_sign
factor v =
    let s = pos one +ℤ with_sign v (round_double (abs v * one) 10_000) in
    with_sign s (round_double (abs s) 1)

-- roundVnd(price * (1 + v / 10_000))
unfoldable pub percent_price : ℤ → ℤ → ℤ
unfolding factor round_double round_half_up ◌*ℤ◌ with_sign
percent_price price v =
    let f = factor v in
    with_sign (price *ℤ f) (round_half_up (round_double (abs price * abs f) 1) one)
