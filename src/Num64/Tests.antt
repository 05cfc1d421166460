-- ===== src/Num64/Tests.antt =====
-- bwlib/arithm64.c on concrete values.
use bwctl.Prelude.{◌<◌, arith}
use bwctl.Num64.{u32_mod, billion, million, carry, carry_fuel}
use bwctl.Num64.Laws.{carry_fuel_suffices}

carry_fuel_suffices_example :
    ((carry carry_fuel u32_mod billion 7 4000000000).1 < billion)
    × ((carry carry_fuel u32_mod million 7 4000000000).1 < million)
carry_fuel_suffices_example = carry_fuel_suffices u32_mod 7 4000000000 (omega arith)
