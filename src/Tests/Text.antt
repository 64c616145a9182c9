-- ===== src/Tests/Text.antt =====
-- Runs of the functions on strings.
use riscv_mos.Base.{◌==◌, if◌then◌else◌, refl, arith, [], ◌∷◌}
use riscv_mos.Mem.{Mem}
use riscv_mos.Strings.Text.{IsText}

-- "hi" at 16 and "ho" at 32.
abbrev words : Mem
words a =
    if a == 16
    then 104
    else if a == 17
    then 105
    else if a == 32
    then 104
    else if a == 33
    then 111
    else 0

hi : IsText words 16 (104 ∷ 105 ∷ [])
hi = (refl, omega arith, (refl, omega arith, refl))

ho : IsText words 32 (104 ∷ 111 ∷ [])
ho = (refl, omega arith, (refl, omega arith, refl))
