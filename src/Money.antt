-- ===== src/Money.antt =====
-- packages/pricing-engine/src/round.ts: amounts in whole VND. An amount before rounding is a
-- fraction; the check for a finite number has nothing to refuse there.
mod Tests
use pms_homestay.Prelude.{ℕ, ◌+◌, ◌*◌, ◌/◌, ◌≤◌, ◌<◌, ◌≡◌, refl, suc, arith}
use pms_homestay.Prelude.Int.{ℤ, pos, negsuc, pos_part, neg_part, sub_ℕ, ◌≤ℤ◌}

-- Math.round(n / d) of a number that is not negative: the floor of n / d + 1/2.
unfoldable pub round_half_up : ℕ → ℕ → ℕ
round_half_up n d = (2 * n + d) / (2 * d)

-- The sign of a number times a magnitude.
unfoldable pub with_sign : ℤ → ℕ → ℤ
with_sign (pos _) m = pos m
with_sign (negsuc _) m = sub_ℕ 0 m

abbrev pub abs : ℤ → ℕ
abs a = pos_part a + neg_part a

-- roundVnd(a / d)
unfoldable pub round_vnd : ℤ → ℕ → ℤ
unfolding round_half_up with_sign
round_vnd a d = with_sign a (round_half_up (abs a) d)
