-- ===== src/Engine/Double/Tests.antt =====
-- Runs of the floating-point product.
use pms_homestay.Prelude.{◌≡◌, refl}
use pms_homestay.Prelude.Int.{pos, negsuc}
use pms_homestay.Money.{round_vnd}
use pms_homestay.Engine.Double.{percent_price}

-- +15% and -10% of whole thousands are exact.
whole :
    (percent_price (pos 300000) (pos 1500) ≡ pos 345000)
    × (percent_price (pos 300000) (negsuc 999) ≡ pos 270000)
unfolding percent_price
whole = (refl, refl)

-- 50 * 1.15 is 57.49999999999999 as a double, so the half is lost: 57, where the exact value
-- 57.5 rounds to 58.
tie_lost : (percent_price (pos 50) (pos 1500) ≡ pos 57) × (round_vnd (pos 575000) 10_000 ≡ pos 58)
unfolding percent_price round_vnd
tie_lost = (refl, refl)
