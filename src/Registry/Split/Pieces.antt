-- ===== src/Registry/Split/Pieces.antt =====
-- The lists of texts that a split builds, apart from the constructors of texts.
use Prim.Native.Char.{Char}
use Prim.Native.String.{String, ◌∷◌ as cons}
use azure_aci.Prelude.{Option, none, some, List, [], ◌∷◌, ℕ, suc, ◌≡◌, length, arith}

abbrev pub last_piece : List String
last_piece = "" ∷ []

abbrev pub next_piece : List String → List String
next_piece pieces = "" ∷ pieces

-- A character in front of the first piece.
abbrev pub grow_head : Char → List String → List String
grow_head c [] = cons c "" ∷ []
grow_head c (piece ∷ pieces) = cons c piece ∷ pieces

abbrev pub grow_first : Char → Option (String × String) → Option (String × String)
grow_first c none = none
grow_first c (some (before, after)) = some (cons c before, after)

abbrev pub sole_piece : String → List String
sole_piece p = p ∷ []

abbrev pub two_pieces : String → String → List String
two_pieces u p = u ∷ p ∷ []

pub length-grow_head :
    (c : Char) (pieces : List String) (n : ℕ)
    → length pieces ≡ suc n
    → length (grow_head c pieces) ≡ suc n
length-grow_head c [] n h = absurd (omega (arith, h))
length-grow_head c (piece ∷ pieces) n h = h
