-- ===== src/Base/Text.antt =====
-- Texts that the program builds and takes apart: lists of code points.
use Prim.Native.Char.{code}
use Prim.Native.String.{String}
use Prim.Native.Nat.{ℕ, zero, suc, ◌-◌}
use mathlib.Core.Bool.{Bool, true, false, ◌&&◌}
use mathlib.Core.List.{List, [], ◌∷◌, ◌++◌}
use plaidify.Base.Tests.{nat_eqb, if◌then◌else◌}
use plaidify.Base.Lists.{length}

abbrev pub Text : Type 0
Text = List ℕ

-- A literal of the source.
abbrev pub lit : String → Text
lit String.[] = []
lit (String.◌∷◌ c s) = code c ∷ lit s

-- `t.startswith(prefix)`
abbrev pub starts_with : Text → Text → Bool
starts_with [] t = true
starts_with (p ∷ ps) [] = false
starts_with (p ∷ ps) (c ∷ t) = nat_eqb p c && starts_with ps t

-- `t.split(sep)[-1]`, for a separator that is not empty: `part` is the part read so far, and `skip`
-- counts the characters of a separator that are still to be passed over.
unfoldable pub split_last : Text → ℕ → Text → Text → Text
split_last sep skip part [] = part
split_last sep (suc skip) part (c ∷ t) = split_last sep skip part t
split_last sep zero part (c ∷ t) =
    let next = split_last sep (length sep - 1) [] t in
    let on = split_last sep zero (part ++ c ∷ []) t in if starts_with sep (c ∷ t) then next else on
