-- ===== src/Riscv/Tests.antt =====
-- The theorems about addresses and entries at concrete values.
use csci5103_lab.Common.{◌≡◌, refl}
use csci5103_lab.Riscv.{pg_round_up, super_pg_round_up, px}

round_up_runs : (pg_round_up 1 ≡ 4096) × (pg_round_up 8192 ≡ 8192) × (super_pg_round_up 5 ≡ 2097152)
unfolding pg_round_up super_pg_round_up
round_up_runs = (refl, refl, refl)

px_runs : (px 2 0x3fffffe000 ≡ 255) × (px 1 0x3fffffe000 ≡ 511) × (px 0 0x3fffffe000 ≡ 510)
unfolding px
px_runs = (refl, refl, refl)
