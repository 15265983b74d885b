-- ===== src/Nvm/Entry/Tests.antt =====
-- Runs of the entry operations, and instances of their theorems.
use hoit_f2fs.Base.{◌*◌, ◌/◌, ◌≡◌, refl, arith}
use hoit_f2fs.Nvm.Entry.{entry, value, map_flag, redirect_flag, without_double}
use hoit_f2fs.Nvm.Entry.Fields.{HasFields, without_double-HasFields}

-- A mapping to segment 5 with all three flags: dropping the double flag turns it into segment 4.
clear_double_loses_a_digit : (value (entry 5 7) ≡ 5) × (value (without_double (entry 5 7)) ≡ 4)
unfolding value entry without_double
clear_double_loses_a_digit = (refl, refl)

without_double-HasFields_example :
    HasFields (without_double 47) (value 47 / 2 * 2) (map_flag 47) (redirect_flag 47) 0
without_double-HasFields_example = without_double-HasFields 47 (omega arith)
