-- ===== src/Prelude/Keyword.antt =====
-- A `match` on a text whose arms are keywords, as a chain of tests.
use Prim.Native.String.{String}
use text.Mathlib.Text.{◌==◌}
use text.Mathlib.TextEquality.{eq_iff}
use mathlib.Core.Path.{◌≡◌}
use mathlib.Core.Option.{Option, some}
use native.Mathlib.Omega.{arith}
use cretonne.Prelude.Tests.{if◌then◌else◌}

-- If the arm of a keyword returns what prints as that keyword, and the arms below return only what
-- prints as the text, so does the chain.
pub keyword_arm :
    {A : Type 0} (print : A → String) (s t : String) (c d : A) (rest : Option A)
    → print d ≡ t
    → (rest ≡ some c → print c ≡ s)
    → (if s == t then some d else rest) ≡ some c
    → print c ≡ s
keyword_arm print s t c d rest prints below e = ground (arith, eq_iff s t)
