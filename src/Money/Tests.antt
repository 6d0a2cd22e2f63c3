-- ===== src/Money/Tests.antt =====
-- Runs of the rounding of money.
use pms_homestay.Prelude.{◌≡◌, refl}
use pms_homestay.Prelude.Int.{pos, negsuc}
use pms_homestay.Money.{round_vnd}

-- 1.5 gives 2, 1.4 gives 1, -1.5 gives -2
rounds :
    (round_vnd (pos 15) 10 ≡ pos 2)
    × (round_vnd (pos 14) 10 ≡ pos 1)
    × (round_vnd (negsuc 14) 10 ≡ negsuc 1)
unfolding round_vnd
rounds = (refl, refl, refl)
