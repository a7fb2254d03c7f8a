-- ===== src/Prelude/Text.antt =====
-- Texts: concatenation beside that of lists, and Go's maps with string keys as association lists.
-- A Go map is iterated in no fixed order: an association list fixes one, and a theorem that must
-- not depend on it says so.
use Prim.Native.String.{String, ◌++◌ as append}
use mathlib.Core.Bool.{Bool, true, false}
use mathlib.Core.Option.{Option, none, some}
use mathlib.Core.List.{List, [], ◌∷◌}
use text.Mathlib.Text.{◌==◌}
use azure_aci.Prelude.Tests.{if◌then◌else◌}

-- `fmt.Sprintf` and `+` on strings.
infixr 65 ◌<>◌
abbrev pub ◌<>◌ : String → String → String
s <> t = append s t

-- m[k], where it is present
abbrev pub lookup {ℓ} : {V : Type ℓ} → List (String × V) → String → Option V
lookup [] k = none
lookup (entry ∷ entries) k = if entry.0 == k then some entry.1 else lookup entries k

-- Whether a text stands in a list.
abbrev pub contains : List String → String → Bool
contains [] s = false
contains (x ∷ xs) s = if x == s then true else contains xs s

-- strings.Join
abbrev pub join : String → List String → String
join sep [] = ""
join sep (x ∷ []) = x
join sep (x ∷ y ∷ rest) = x <> (sep <> join sep (y ∷ rest))
