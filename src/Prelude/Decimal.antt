-- ===== src/Prelude/Decimal.antt =====
-- The decimal digits of a number, as `%d` of fmt prints them.
use Prim.Native.Nat.{ℕ, zero, suc, ◌+◌, ◌-◌, ◌/◌, ◌%◌}
use mathlib.Core.List.{[], ◌∷◌, ◌++◌}
use safe.Prelude.Tests.{ltb, if◌then◌else◌}
use safe.Prelude.Text.{GoString}
use safe.Prelude.Lists.{length}

-- Each round drops a digit, so that the number itself is fuel enough.
unfoldable pub digits_from : ℕ → ℕ → GoString
digits_from zero n = (48 + n % 10) ∷ []
digits_from (suc f) n =
    let higher = digits_from f (n / 10) ++ ((48 + n % 10) ∷ []) in
    if ltb n 10 then (48 + n) ∷ [] else higher

-- `%d`
unfoldable pub show : ℕ → GoString
unfolding digits_from
show n = digits_from n n

spaces : ℕ → GoString
spaces zero = []
spaces (suc n) = b' ' ∷ spaces n

-- `%8d`
unfoldable pub show_padded : ℕ → GoString
unfolding show spaces
show_padded n = spaces (8 - length (show n)) ++ show n
