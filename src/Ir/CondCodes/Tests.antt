-- ===== src/Ir/CondCodes/Tests.antt =====
-- Condition codes on small inputs.

use cretonne.Prelude.{◌≡◌, refl, true, false}
use cretonne.Ir.CondCodes.{IntCc}
use cretonne.Ir.CondCodes.IntLaws.{icmp}

-- As bytes, 0xff is -1 and below 1 only where signed.
signs :
    (icmp 8 IntCc.signed_less_than 0xff 1 ≡ true) × (icmp 8 IntCc.unsigned_less_than 0xff 1 ≡ false)
unfolding icmp
signs = (refl, refl)
