-- ===== src/Dns/Limits.antt =====
-- The limits on name servers and on the search line.
use azure_aci.Prelude.{
  join, ℕ, zero, suc, ◌+◌, ◌-◌, ◌≤◌, ◌<◌, String, Bool, true, false, List, [], ◌∷◌, ◌≡◌, refl, len,
  length, take, arith, Bool-cases, inl, inr, ◌⊎◌, ltb, ltb→lt, sym, leb, leb→le, length-take, ◌<>◌,
  not, length-keep-le, keep-All, take-all, All,
}
use text.Mathlib.TextPositions.{len-append}
use azure_aci.Dns.{
  len_at, cut_domains, cut_searches, max_dns_search_list_chars, max_dns_search_paths,
  candidate_searches, form_dns_search_fits_limits, form_dns_nameservers_fits_limits,
  max_dns_nameservers,
}

-- The length of the texts, each with a blank after it.
abbrev pub width : List String → ℕ
width [] = 0
width (x ∷ xs) = len x + 1 + width xs

len-join : (xs : List String) → (xs ≡ []) ⊎ (len (join " " xs) + 1 ≡ width xs)
len-join [] = inl refl
len-join (x ∷ []) = inr (omega arith)
len-join (x ∷ y ∷ rest) = elim (len-join (y ∷ rest)) [
  | inl e ↦ absurd cc
  | inr e ↦ inr (
      omega
        (arith, e, len-append x (" " <> join " " (y ∷ rest)), len-append " " (join " " (y ∷ rest))))
]

len-join-le : (xs : List String) → len (join " " xs) ≤ width xs
len-join-le xs = elim (len-join xs) [ inl e ↦ rw e (omega arith) | inr e ↦ omega (arith, e) ]

len_join≤ : (xs : List String) (m : ℕ) → width xs ≤ m + 1 → len (join " " xs) ≤ m
len_join≤ xs m h = elim (len-join xs) [ inl e ↦ rw e (omega arith) | inr e ↦ omega (arith, e, h) ]

width-take :
    (xs : List String) (i : ℕ)
    → suc i ≤ length xs
    → width (take (suc i) xs) ≡ width (take i xs) + (len_at xs i + 1)
width-take [] i h = absurd (omega (arith, h))
width-take (x ∷ xs) zero h = omega arith
width-take (x ∷ xs) (suc i) h = omega (arith, width-take xs i (omega (arith, h)))

take-length : (xs : List String) → take (length xs) xs ≡ xs
take-length xs = take-all (length xs) xs (omega arith)

-- Where the loop stands: `i` domains are left, and the cut ones measure `cut_len`.
record At (xs : List String) (line i cut_num cut_len : ℕ) : Type 0 where
  count : cut_num + i ≡ length xs
  measure : width (take i xs) + cut_len ≡ width xs
  whole : line + 1 ≡ width xs

At-next :
    (xs : List String) (line i cut_num cut_len : ℕ)
    → At xs line (suc i) cut_num cut_len
    → At xs line i (suc cut_num) (cut_len + (len_at xs i + 1))
At-next xs line i cut_num cut_len a = record {
  count = omega (arith, a.count);
  measure = omega (arith, a.count, a.measure, width-take xs i (omega (arith, a.count)));
  whole = a.whole;
}

module _ (xs : List String) (line i cut_num cut_len : ℕ) where
  -- The test at the end of the loop's body.
  abbrev is_enough : Bool
  is_enough = leb line (max_dns_search_list_chars + (cut_len + (len_at xs i + 1)))

  cut_domains-enough : is_enough ≡ true → cut_domains xs line (suc i) cut_num cut_len ≡ suc cut_num
  unfolding cut_domains
  cut_domains-enough e = rw (e, cut_domains) refl

  cut_domains-more :
      is_enough ≡ false
      → cut_domains xs line (suc i) cut_num cut_len
        ≡ cut_domains xs line i (suc cut_num) (cut_len + (len_at xs i + 1))
  unfolding cut_domains
  cut_domains-more e = rw (e, cut_domains) refl

kept : List String → ℕ → List String
kept xs cut = take (length xs - cut) xs

cut_domains-fits :
    (xs : List String) (line i cut_num cut_len : ℕ)
    → At xs line i cut_num cut_len
    → width (kept xs (cut_domains xs line i cut_num cut_len)) ≤ max_dns_search_list_chars + 1
unfolding kept cut_domains
cut_domains-fits xs line zero cut_num cut_len a =
    let none_left : length xs - cut_num ≡ 0 = omega (arith, a.count) in rw none_left (omega arith)
cut_domains-fits xs line (suc i) cut_num cut_len a =
    let next = At-next xs line i cut_num cut_len a in
    let left : length xs - suc cut_num ≡ i = omega (arith, a.count) in
    elim (Bool-cases (is_enough xs line i cut_num cut_len)) [
      | inl e ↦
          rw (cut_domains-enough xs line i cut_num cut_len e, left)
            (omega (arith, leb→le _ _ e, next.measure, next.whole))
      | inr e ↦
          rw (cut_domains-more xs line i cut_num cut_len e)
            (cut_domains-fits xs line i (suc cut_num) _ next)
    ]

le_cases : (j i : ℕ) → j ≤ suc i → (j ≡ suc i) ⊎ (j ≤ i)
le_cases j i h = elim (Bool-cases (leb j i)) [
  | inl e ↦ inr (leb→le _ _ e)
  | inr e ↦ inl (ground (arith, e, h))
]

cut_domains-longest :
    (xs : List String) (line i cut_num cut_len : ℕ)
    → At xs line i cut_num cut_len
    → max_dns_search_list_chars + 1 < width (take i xs)
    → (j : ℕ) → length xs - cut_domains xs line i cut_num cut_len < j
    → j ≤ i
    → max_dns_search_list_chars + 1 < width (take j xs)
unfolding cut_domains
cut_domains-longest xs line zero cut_num cut_len a long j lo hi =
    absurd (omega (arith, lo, hi, a.count))
cut_domains-longest xs line (suc i) cut_num cut_len a long j lo hi =
    let next = At-next xs line i cut_num cut_len a in
    elim (Bool-cases (is_enough xs line i cut_num cut_len)) [
      | inl e ↦
          let stopped = cut_domains-enough xs line i cut_num cut_len e in
          let last : j ≡ suc i = omega (arith, lo, hi, stopped, a.count) in rw last long
      | inr e ↦
          let goes_on = cut_domains-more xs line i cut_num cut_len e in
          let still_long : max_dns_search_list_chars + 1 < width (take i xs) =
            ground (arith, e, next.measure, next.whole) in
          elim (le_cases j i hi) [
            | inl e' ↦ rw e' long
            | inr l ↦
                cut_domains-longest xs line i (suc cut_num) _ next still_long j
                  (omega (arith, goes_on, lo)) l
          ]
    ]

-- `r` is the longest prefix of `xs` whose joined length is at most `m`.
pub record Longest (xs : List String) (m : ℕ) (r : List String) : Type 0 where
  pub count : ℕ
  pub is_prefix : r ≡ take count xs
  pub fits : len (join " " r) ≤ m
  pub longest : (j : ℕ) → count < j → j ≤ length xs → m < len (join " " (take j xs))

too_long : (xs : List String) (m : ℕ) → m + 1 < width xs → m < len (join " " xs)
too_long xs m h = elim (len-join xs) [
  | inl e ↦ let empty : width xs ≡ 0 = rw e refl in absurd (omega (arith, h, empty))
  | inr e ↦ omega (arith, e, h)
]

joined : (xs : List String) (m : ℕ) → m < len (join " " xs) → len (join " " xs) + 1 ≡ width xs
joined xs m h = elim (len-join xs) [
  | inl e ↦ let empty : len (join " " xs) ≡ 0 = rw e refl in absurd (omega (arith, h, empty))
  | inr e ↦ e
]

module _ (xs : List String) (long : max_dns_search_list_chars < len (join " " xs)) where
  abbrev line : ℕ
  line = len (join " " xs)

  start : At xs line (length xs) 0 0
  start = record {
    count = omega arith;
    measure = rw (take-length xs) (omega arith);
    whole = joined xs max_dns_search_list_chars long;
  }

  wide : max_dns_search_list_chars + 1 < width (take (length xs) xs)
  wide = rw (take-length xs) (omega (arith, long, joined xs _ long))

  abbrev cut : ℕ
  cut = cut_domains xs line (length xs) 0 0

  kept-Longest : Longest xs max_dns_search_list_chars (kept xs cut)
  unfolding kept
  kept-Longest = record {
    count = length xs - cut;
    is_prefix = refl;
    fits = len_join≤ _ _ (cut_domains-fits xs line (length xs) 0 0 start);
    longest = λ j lo hi.
        too_long (take j xs) max_dns_search_list_chars
          (cut_domains-longest xs line (length xs) 0 0 start wide j lo hi);
  }

pub cut_searches-Longest :
    (xs : List String) → Longest xs max_dns_search_list_chars (cut_searches xs)
unfolding cut_searches cut_domains kept
cut_searches-Longest xs = elim (Bool-cases (ltb max_dns_search_list_chars (len (join " " xs)))) [
  | inl e ↦ rw e (kept-Longest xs (ltb→lt _ _ e))
  | inr e ↦ rw e (record {
    count = length xs;
    is_prefix = sym (take-length xs);
    fits = ground (arith, e);
    longest = λ j lo hi. absurd (omega (arith, lo, hi));
  })
]

length-candidate_searches :
    (m : ℕ) (xs : List String) → length (candidate_searches m xs) ≤ max_dns_search_paths
unfolding candidate_searches
length-candidate_searches m xs = elim (Bool-cases (ltb max_dns_search_paths (length xs))) [
  | inl e ↦ rw e (
      omega (
        arith,
        length-keep-le (λ s. not (ltb m (len s))) (take max_dns_search_paths xs),
        length-take max_dns_search_paths xs,
      ))
  | inr e ↦ rw e (ground (arith, e, length-keep-le (λ s. not (ltb m (len s))) xs))
]

candidate_searches-short :
    (m : ℕ) (xs : List String) → All (λ s. not (ltb m (len s)) ≡ true) (candidate_searches m xs)
unfolding candidate_searches
candidate_searches-short m xs = keep-All (λ s. not (ltb m (len s))) _

-- What becomes of the search paths `xs`.
pub record Searched (m : ℕ) (xs : List String) (search_line : String) : Type 0 where
  pub domains : List String
  pub is_line : search_line ≡ join " " domains
  pub longest : Longest (candidate_searches m xs) max_dns_search_list_chars domains
  pub few : length (candidate_searches m xs) ≤ max_dns_search_paths
  pub short : All (λ s. not (ltb m (len s)) ≡ true) (candidate_searches m xs)

pub form_dns_search_fits_limits-Searched :
    (m : ℕ) (xs : List String) → Searched m xs (form_dns_search_fits_limits m xs)
unfolding form_dns_search_fits_limits
form_dns_search_fits_limits-Searched m xs = record {
  domains = cut_searches (candidate_searches m xs);
  is_line = refl;
  longest = cut_searches-Longest (candidate_searches m xs);
  few = length-candidate_searches m xs;
  short = candidate_searches-short m xs;
}

pub form_dns_nameservers_fits_limits_lem :
    (xs : List String) → form_dns_nameservers_fits_limits xs ≡ take max_dns_nameservers xs
unfolding form_dns_nameservers_fits_limits
form_dns_nameservers_fits_limits_lem xs = elim (Bool-cases (ltb max_dns_nameservers (length xs))) [
  | inl e ↦ rw e refl
  | inr e ↦ rw e (sym (take-all max_dns_nameservers xs (ground (arith, e))))
]
