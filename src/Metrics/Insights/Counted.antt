-- ===== src/Metrics/Insights/Counted.antt =====
-- The total of series that overlap, entry by entry.
use azure_aci.Prelude.{
  ℕ, ◌+◌, ◌*◌, ◌/◌, ◌%◌, ◌^◌, ◌≤◌, ◌<◌, List, [], ◌∷◌, ◌++◌, ◌≡◌, ap, ◌∙◌, arith, ◌⊎◌, inl, inr,
  Bool-cases, ltb,
}
use azure_aci.K8s.{Time}
use azure_aci.Metrics.Insights.{Entry}
use azure_aci.Metrics.Insights.Cumulative.{
  Cumulative, no_cumulative, minute, add_entry, add_entries, restarted, update_cumulative_usage,
}
use azure_aci.Metrics.Insights.Overlap.{update_cumulative_usage-overlap}

-- Each entry is newer than the one before it, and the first than `t`.
abbrev pub Ascending : Time → List Entry → Type 0
Ascending t [] = Unit {0}
Ascending t (r ∷ rs) = (t < r.timestamp) × Ascending r.timestamp rs

abbrev pub last_time : Time → List Entry → Time
last_time t [] = t
last_time t (r ∷ rs) = last_time r.timestamp rs

-- The averages of all entries, each for sixty seconds.
abbrev pub usage_sum : ℕ → List Entry → ℕ
usage_sum multiple [] = 0
usage_sum multiple (r ∷ rs) = r.average / 1000000 % 2 ^ 64 * 60 * multiple + usage_sum multiple rs

-- A total of `value` before the entries.
abbrev pub counted : ℕ → ℕ → Time → List Entry → Cumulative
counted multiple value t rs = record {
  last_update_time = last_time t rs;
  value = (value + usage_sum multiple rs) % 2 ^ 64;
}

sum_once : (a b d : ℕ) → ((a + b) % 2 ^ 64 + d) % 2 ^ 64 ≡ (a + (b + d)) % 2 ^ 64
sum_once a b d = omega arith

module _ (multiple : ℕ) where
  add_entry-new :
      (r : Entry) (c : Cumulative)
      → c.last_update_time < r.timestamp
      → add_entry multiple r c ≡ record {
        last_update_time = r.timestamp;
        value = (c.value + r.average / 1000000 % 2 ^ 64 * 60 * multiple) % 2 ^ 64;
      }
  unfolding add_entry
  add_entry-new r c newer = ground (arith, newer)

  add_entries-counted :
      (r : Entry) (rs : List Entry) (c : Cumulative)
      → Ascending c.last_update_time (r ∷ rs)
      → add_entries multiple (r ∷ rs) c ≡ counted multiple c.value c.last_update_time (r ∷ rs)
  unfolding add_entries
  add_entries-counted r [] c (newer, up) =
      add_entry-new r c newer
      ∙ ap (λ v. record { last_update_time = r.timestamp; value = v })
          (ap (λ n. n % 2 ^ 64) (omega arith))
  add_entries-counted r (s ∷ rs) c (newer, up) =
      ap (add_entries multiple (s ∷ rs)) (add_entry-new r c newer)
      ∙ add_entries-counted s rs
          (record {
            last_update_time = r.timestamp;
            value = (c.value + r.average / 1000000 % 2 ^ 64 * 60 * multiple) % 2 ^ 64;
          })
          up
      ∙ ap (λ v. record { last_update_time = last_time r.timestamp (s ∷ rs); value = v })
          (sum_once c.value (r.average / 1000000 % 2 ^ 64 * 60 * multiple)
            (usage_sum multiple (s ∷ rs)))

  Ascending-from :
      (t t' : Time) (r : Entry) (rs : List Entry)
      → t < r.timestamp
      → Ascending t' (r ∷ rs)
      → Ascending t (r ∷ rs)
  Ascending-from t t' r rs newer up = (newer, up.1)

  update-counted :
      (r : Entry) (rs : List Entry) (c : Cumulative)
      → Ascending c.last_update_time (r ∷ rs)
      → ((r.timestamp ≤ c.last_update_time + minute)
          × (update_cumulative_usage multiple r rs c
              ≡ counted multiple c.value c.last_update_time (r ∷ rs)))
        ⊎ ((c.last_update_time + minute < r.timestamp)
            × (update_cumulative_usage multiple r rs c ≡ counted multiple 0 0 (r ∷ rs)))
  unfolding update_cumulative_usage restarted
  update-counted r rs c up = elim (Bool-cases (ltb (c.last_update_time + minute) r.timestamp)) [
    | inl gap ↦ inr (
      ground (arith, gap),
      rw gap (
          add_entries-counted r rs no_cumulative
            (Ascending-from 0 c.last_update_time r rs (ground (arith, gap)) up)),
    )
    | inr near ↦ inl (ground (arith, near), rw near (add_entries-counted r rs c up))
  ]

  -- When a series is taken up, whose entries ascend in time from the last update, and then one that begins
  -- within it (with its last entries, which are at least one) and goes on after it, then the total has
  -- become that of the entries of both, each once: the earlier total, or zero if the series begins more
  -- than a minute after the last update, and the average of each entry in millionths for sixty seconds, times the
  -- multiple, as a uint64. The time is that of the last entry.
  pub update_cumulative_usage-counted :
      (first : Entry) (rest xs : List Entry) (y : Entry) (ys zs : List Entry) (c : Cumulative)
      → first ∷ rest ≡ xs ++ (y ∷ ys)
      → Ascending c.last_update_time (first ∷ rest ++ zs)
      → ((first.timestamp ≤ c.last_update_time + minute)
          × (update_cumulative_usage multiple y
                (ys ++ zs)
                (update_cumulative_usage multiple first rest c)
              ≡ counted multiple c.value c.last_update_time (first ∷ rest ++ zs)))
        ⊎ ((c.last_update_time + minute < first.timestamp)
            × (update_cumulative_usage multiple y
                  (ys ++ zs)
                  (update_cumulative_usage multiple first rest c)
                ≡ counted multiple 0 0 (first ∷ rest ++ zs)))
  update_cumulative_usage-counted first rest xs y ys zs c split up =
      let once = update_cumulative_usage-overlap multiple first rest xs y ys zs c split in
      elim (update-counted first (rest ++ zs) c up) [
        | inl (near, same) ↦ inl (near, once ∙ same)
        | inr (gap, same) ↦ inr (gap, once ∙ same)
      ]
