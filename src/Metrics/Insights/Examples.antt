-- ===== src/Metrics/Insights/Examples.antt =====
-- Five minutes of averages, and the five minutes that begin a minute later.
use azure_aci.Prelude.{ℕ, ◌*◌, ◌+◌, ◌≤◌, ◌<◌, ◌⊎◌, arith, List, [], ◌∷◌, ◌++◌, ◌≡◌, refl}
use azure_aci.Metrics.Insights.{Entry}
use azure_aci.Metrics.Insights.Cumulative.{
  update_cumulative_usage, add_entries, add_entry, restarted, no_cumulative, minute,
}
use azure_aci.Metrics.Insights.Counted.{counted, update_cumulative_usage-counted}

abbrev at_minute : ℕ → Entry
at_minute n = record { timestamp = n * minute; average = n * 1000000 }

abbrev later : List Entry
later = at_minute 2 ∷ at_minute 3 ∷ []

-- (1 + 2 + 3 + 4) * 60
total_is_summed :
    update_cumulative_usage 1 (at_minute 1) (later ++ (at_minute 4 ∷ [])) no_cumulative
    ≡ record { last_update_time = 4 * minute; value = 600 }
unfolding update_cumulative_usage add_entries add_entry restarted
total_is_summed = refl

update_cumulative_usage-counted_example :
    ((1 * minute ≤ 0 + minute)
      × (update_cumulative_usage 1
            (at_minute 2)
            (at_minute 3 ∷ at_minute 4 ∷ [])
            (update_cumulative_usage 1 (at_minute 1) later no_cumulative)
          ≡ counted 1 0 0 (at_minute 1 ∷ later ++ (at_minute 4 ∷ []))))
    ⊎ ((0 + minute < 1 * minute)
        × (update_cumulative_usage 1
              (at_minute 2)
              (at_minute 3 ∷ at_minute 4 ∷ [])
              (update_cumulative_usage 1 (at_minute 1) later no_cumulative)
            ≡ counted 1 0 0 (at_minute 1 ∷ later ++ (at_minute 4 ∷ []))))
update_cumulative_usage-counted_example =
    update_cumulative_usage-counted 1 (at_minute 1) later (at_minute 1 ∷ []) (at_minute 2)
      (at_minute 3 ∷ []) (at_minute 4 ∷ []) no_cumulative refl
      (omega arith, (omega arith, (omega arith, (omega arith, tt))))
