-- ===== src/Decimal/Tests.antt =====
-- Numbers as text at small inputs.
use c_language_learnning.Base.{◌≡◌, refl, codes}
use c_language_learnning.Base.Int.{negsuc}
use c_language_learnning.Decimal.{decimal, atoi}

decimal_runs : decimal 1024 ≡ codes "1024"
unfolding decimal
decimal_runs = refl

atoi_runs : atoi (codes " \t-12x") ≡ negsuc 11
unfolding atoi
atoi_runs = refl
