-- ===== src/Dns/Unique.antt =====
-- omitDuplicates keeps every string once.
use azure_aci.Prelude.{
  String, false, ◌&&◌, not, List, [], ◌∷◌, ◌≡◌, refl, contains, arith, eq_iff, Bool-cases, inl, inr,
  eq_refl,
}
use azure_aci.Dns.{omit_seen, omit_duplicates}

-- No string stands twice.
abbrev pub Unique : List String → Type 0
Unique [] = Unit
Unique (x ∷ xs) = (contains xs x ≡ false) × Unique xs

contains-omit_seen :
    (seen xs : List String) (s : String)
    → contains (omit_seen seen xs) s ≡ (contains xs s && not (contains seen s))
unfolding omit_seen
contains-omit_seen seen [] s = refl
contains-omit_seen seen (x ∷ xs) s =
    ground (arith, eq_iff x s, contains-omit_seen seen xs s, contains-omit_seen (x ∷ seen) xs s)

omit_seen-Unique : (seen xs : List String) → Unique (omit_seen seen xs)
unfolding omit_seen
omit_seen-Unique seen [] = tt
omit_seen-Unique seen (x ∷ xs) = elim (Bool-cases (contains seen x)) [
  | inl e ↦ rw (e, Unique) (omit_seen-Unique seen xs)
  | inr e ↦
      rw (e, Unique)
        (
          ground (arith, eq_refl x, contains-omit_seen (x ∷ seen) xs x),
          omit_seen-Unique (x ∷ seen) xs,
        )
]

-- The result has the same strings, each once.
omit_duplicates_exact :
    (strs : List String)
    → Unique (omit_duplicates strs)
      × ((s : String) → contains (omit_duplicates strs) s ≡ contains strs s)
unfolding omit_duplicates
omit_duplicates_exact strs =
    (omit_seen-Unique [] strs, λ s. ground (arith, contains-omit_seen [] strs s))
