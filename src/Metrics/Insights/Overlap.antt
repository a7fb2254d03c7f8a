-- ===== src/Metrics/Insights/Overlap.antt =====
-- Series that overlap are counted once.
use azure_aci.Prelude.{ℕ, ◌≤◌, List, [], ◌∷◌, ◌++◌, ◌≡◌, refl, sym, ap, subst, ◌∙◌, arith}
use azure_aci.K8s.{Time}
use azure_aci.Metrics.Insights.{Entry}
use azure_aci.Metrics.Insights.Cumulative.{
  Cumulative, add_entry, add_entries, restarted, update_cumulative_usage,
}

-- No entry is newer than `t`.
abbrev pub NoneNewer : List Entry → Time → Type 0
NoneNewer [] t = Unit {0}
NoneNewer (r ∷ rs) t = (r.timestamp ≤ t) × NoneNewer rs t

module _ (multiple : ℕ) where
  add_entries-append :
      (xs ys : List Entry) (c : Cumulative)
      → add_entries multiple (xs ++ ys) c ≡ add_entries multiple ys (add_entries multiple xs c)
  unfolding add_entries
  add_entries-append [] ys c = refl
  add_entries-append (x ∷ xs) ys c = add_entries-append xs ys (add_entry multiple x c)

  add_entry-after :
      (r : Entry) (c : Cumulative) → r.timestamp ≤ (add_entry multiple r c).last_update_time
  unfolding add_entry
  add_entry-after r c = ground arith

  add_entry-later :
      (r : Entry) (c : Cumulative) → c.last_update_time ≤ (add_entry multiple r c).last_update_time
  unfolding add_entry
  add_entry-later r c = ground arith

  add_entries-later :
      (rs : List Entry) (c : Cumulative)
      → c.last_update_time ≤ (add_entries multiple rs c).last_update_time
  unfolding add_entries
  add_entries-later [] c = omega arith
  add_entries-later (r ∷ rs) c =
      omega (arith, add_entry-later r c, add_entries-later rs (add_entry multiple r c))

  add_entries-NoneNewer :
      (rs : List Entry) (c : Cumulative) → NoneNewer rs (add_entries multiple rs c).last_update_time
  unfolding add_entries
  add_entries-NoneNewer [] c = tt
  add_entries-NoneNewer (r ∷ rs) c = (
    omega (arith, add_entry-after r c, add_entries-later rs (add_entry multiple r c)),
    add_entries-NoneNewer rs (add_entry multiple r c),
  )

  add_entry-known :
      (r : Entry) (c : Cumulative) → r.timestamp ≤ c.last_update_time → add_entry multiple r c ≡ c
  unfolding add_entry
  add_entry-known r c h = ground (arith, h)

  add_entries-known :
      (rs : List Entry) (c : Cumulative)
      → NoneNewer rs c.last_update_time
      → add_entries multiple rs c ≡ c
  unfolding add_entries
  add_entries-known [] c h = refl
  add_entries-known (r ∷ rs) c h = rw (add_entry-known r c h.0) (add_entries-known rs c h.1)

  restarted-known :
      (r : Entry) (c : Cumulative) → r.timestamp ≤ c.last_update_time → restarted r c ≡ c
  unfolding restarted
  restarted-known r c h = ground (arith, h)

  NoneNewer-append_right : (xs ys : List Entry) (t : Time) → NoneNewer (xs ++ ys) t → NoneNewer ys t
  NoneNewer-append_right [] ys t h = h
  NoneNewer-append_right (x ∷ xs) ys t h = NoneNewer-append_right xs ys t h.1

  -- What is known of `ys` adds nothing.
  update-known :
      (y : Entry) (ys zs : List Entry) (c : Cumulative)
      → NoneNewer (y ∷ ys) c.last_update_time
      → update_cumulative_usage multiple y (ys ++ zs) c ≡ add_entries multiple zs c
  unfolding update_cumulative_usage
  update-known y ys zs c h =
      ap (add_entries multiple (y ∷ ys ++ zs)) (restarted-known y c h.0)
      ∙ add_entries-append (y ∷ ys) zs c
      ∙ ap (add_entries multiple zs) (add_entries-known (y ∷ ys) c h)

  update-NoneNewer :
      (first : Entry) (rest : List Entry) (c : Cumulative)
      → NoneNewer (first ∷ rest) (update_cumulative_usage multiple first rest c).last_update_time
  unfolding update_cumulative_usage
  update-NoneNewer first rest c = add_entries-NoneNewer (first ∷ rest) (restarted first c)

  update-append :
      (first : Entry) (rest zs : List Entry) (c : Cumulative)
      → update_cumulative_usage multiple first (rest ++ zs) c
        ≡ add_entries multiple zs (update_cumulative_usage multiple first rest c)
  unfolding update_cumulative_usage
  update-append first rest zs c = add_entries-append (first ∷ rest) zs (restarted first c)

  -- When a series is taken up, and then one that begins within it (with its last entries, which are at least one) and
  -- goes on after it, the total and the time are those of the one series that both make.
  pub update_cumulative_usage-overlap :
      (first : Entry) (rest xs : List Entry) (y : Entry) (ys zs : List Entry) (c : Cumulative)
      → first ∷ rest ≡ xs ++ (y ∷ ys)
      → update_cumulative_usage multiple y
          (ys ++ zs)
          (update_cumulative_usage multiple first rest c)
        ≡ update_cumulative_usage multiple first (rest ++ zs) c
  update_cumulative_usage-overlap first rest xs y ys zs c split =
      update-known y ys zs (update_cumulative_usage multiple first rest c) (
        NoneNewer-append_right xs (y ∷ ys) _ (
          subst
            (λ rs. NoneNewer rs (update_cumulative_usage multiple first rest c).last_update_time)
            split (update-NoneNewer first rest c)))
      ∙ sym (update-append first rest zs c)
