-- ===== src/Registry/Split/Laws.antt =====
-- Splitting a text that was joined with a colon.
use Prim.Native.Char.{Char, char}
use Prim.Native.String.{String, [], ◌∷◌}
use Prim.Native.String.append
use azure_aci.Prelude.{
  suc, ◌+◌, false, some, ◌≡◌, refl, length, arith, Bool-cases, inl, inr, ◌<>◌, ap, ◌∙◌, ◌==◌,
  eq_iff,
}
use azure_aci.Registry.Split.{is_colon, first_colon, at_colons, colons}
use azure_aci.Registry.Split.Pieces.{length-grow_head, two_pieces, next_piece, sole_piece}

abbrev colon : Char
colon = char 58 tt

colon_front : (p : String) → (":" <> p) ≡ (colon ∷ p)
colon_front p = append.cons colon [] p ∙ ap (λ s. colon ∷ s) (append.nil p)

-- The text before the first colon, and the text after it.
pub first_colon-join : (u p : String) → colons u ≡ 0 → first_colon (u <> (":" <> p)) ≡ some (u, p)
unfolding first_colon colons
first_colon-join [] p h = rw (append.nil (":" <> p), colon_front p) refl
first_colon-join (c ∷ u) p h = elim (Bool-cases (is_colon c)) [
  | inl e ↦ absurd (ground (arith, e, h))
  | inr e ↦
      let none_left : colons u ≡ 0 = ground (arith, e, h) in
      rw (append.cons c u (":" <> p), first_colon, e, first_colon-join u p none_left) refl
]

pub colons-join : (u p : String) → colons (u <> (":" <> p)) ≡ suc (colons u + colons p)
unfolding colons
colons-join [] p = rw (append.nil (":" <> p), colon_front p) (omega arith)
colons-join (c ∷ u) p = elim (Bool-cases (is_colon c)) [
  | inl e ↦ rw (append.cons c u (":" <> p), colons, e) (omega (arith, colons-join u p))
  | inr e ↦ rw (append.cons c u (":" <> p), colons, e) (omega (arith, colons-join u p))
]

pub length-at_colons : (s : String) → length (at_colons s) ≡ suc (colons s)
unfolding at_colons colons
length-at_colons [] = refl
length-at_colons (c ∷ s) = elim (Bool-cases (is_colon c)) [
  | inl e ↦ rw (at_colons, colons, e) (omega (arith, length-at_colons s))
  | inr e ↦
      rw (at_colons, colons, e) (length-grow_head c (at_colons s) (colons s) (length-at_colons s))
]

pub at_colons-sole : (p : String) → colons p ≡ 0 → at_colons p ≡ sole_piece p
unfolding at_colons colons
at_colons-sole [] h = refl
at_colons-sole (c ∷ p) h = elim (Bool-cases (is_colon c)) [
  | inl e ↦ absurd (ground (arith, e, h))
  | inr e ↦
      let none_left : colons p ≡ 0 = ground (arith, e, h) in
      rw (at_colons, e, at_colons-sole p none_left) refl
]

pub at_colons-join :
    (u p : String) → colons u ≡ 0 → colons p ≡ 0 → at_colons (u <> (":" <> p)) ≡ two_pieces u p
unfolding at_colons colons
at_colons-join [] p hu hp =
    rw (append.nil (":" <> p), colon_front p) (ap next_piece (at_colons-sole p hp))
at_colons-join (c ∷ u) p hu hp = elim (Bool-cases (is_colon c)) [
  | inl e ↦ absurd (ground (arith, e, hu))
  | inr e ↦
      let none_left : colons u ≡ 0 = ground (arith, e, hu) in
      rw (append.cons c u (":" <> p), at_colons, e, at_colons-join u p none_left hp) refl
]

-- A text with a colon is not empty.
pub join-ne-empty : (u p : String) → ((u <> (":" <> p)) == "") ≡ false
unfolding colons
join-ne-empty u p = elim (Bool-cases ((u <> (":" <> p)) == "")) [
  | inl e ↦
      let empty : (u <> (":" <> p)) ≡ "" = ground (arith, e, eq_iff (u <> (":" <> p)) "") in
      let no_colons : colons (u <> (":" <> p)) ≡ 0 = rw empty refl in
      absurd (omega (arith, no_colons, colons-join u p))
  | inr e ↦ e
]
