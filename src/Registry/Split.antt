-- ===== src/Registry/Split.antt =====
-- strings.SplitN(s, ":", 2) and strings.Split(s, ":").
use Prim.Native.Char.{Char, code}
use Prim.Native.String.{String, [], ◌∷◌}
use azure_aci.Prelude.{ℕ, suc, Bool, true, false, Option, none, some, List, if◌then◌else◌, eqb}
use azure_aci.Registry.Split.Pieces.{last_piece, next_piece, grow_first, grow_head}
pub mod Pieces
pub mod Laws

abbrev pub is_colon : Char → Bool
is_colon c = eqb (code c) 58

-- What stands before and after the first colon; SplitN has two parts if there is one.
pub first_colon : String → Option (String × String)
first_colon [] = none
first_colon (c ∷ s) =
    let rest = first_colon s in if is_colon c then some ([], s) else grow_first c rest

-- The parts between all colons.
unfoldable pub at_colons : String → List String
at_colons [] = last_piece
at_colons (c ∷ s) =
    let rest = at_colons s in if is_colon c then next_piece rest else grow_head c rest

-- How many colons there are.
unfoldable pub colons : String → ℕ
colons [] = 0
colons (c ∷ s) = let rest = colons s in if is_colon c then suc rest else rest
