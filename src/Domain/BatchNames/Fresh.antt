-- ===== src/Domain/BatchNames/Fresh.antt =====
-- Which name `assign` of safe_name.rs claims.
use clift.Base.{
  ℕ, zero, suc, ◌+◌, ◌<◌, ◌≡◌, ◌⊎◌, refl, ap, subst, ◌∙◌, Bool, true, false, Option, none, some, [],
  ◌∷◌, ◌++◌, arith, Bool-cases, inl, inr,
}
use clift.Base.{Str}
use clift.Domain.SafeName.{sanitize}
use clift.Domain.BatchNames.{BatchNames, contains, candidate, rounds, claim, search, assign}

-- The candidates for a text in the order of the attempts.
abbrev pub nth : Str → ℕ → Str
nth value zero = sanitize value
nth value (suc n) = candidate (sanitize value) (suc (suc n))

-- What is handed out for the candidate of an attempt.
abbrev pub handed_out : Str → ℕ → Str
handed_out value zero = sanitize value
handed_out value (suc n) = sanitize (nth value (suc n))

module _ (to_lowercase : Str → Str) where
  abbrev pub IsTaken : BatchNames → Str → Type 0
  IsTaken names s = contains names.taken (to_lowercase s) ≡ true

  abbrev pub IsFree : BatchNames → Str → Type 0
  IsFree names s = contains names.taken (to_lowercase s) ≡ false

  abbrev pub claimed : BatchNames → Str → BatchNames
  claimed names s = record { taken = names.taken ++ to_lowercase s ∷ [] }

  -- What a run of the loop from one counter on does.
  record Found (names : BatchNames) (base : Str) (counter count : ℕ)
      (result : BatchNames × Option Str) : Type 0 where
    at : ℕ
    in_range : at < count
    free : IsFree names (candidate base (counter + at))
    earlier : (n : ℕ) → n < at → IsTaken names (candidate base (counter + n))
    outcome : result ≡ (
      claimed names (candidate base (counter + at)),
      some (sanitize (candidate base (counter + at))),
    )

  claim-free :
      (names : BatchNames) (s : Str)
      → IsFree names s
      → claim to_lowercase names s ≡ (claimed names s, true)
  unfolding claim
  claim-free names s h = rw h

  claim-taken :
      (names : BatchNames) (s : Str) → IsTaken names s → claim to_lowercase names s ≡ (names, false)
  unfolding claim
  claim-taken names s h = rw h

  AllTaken : BatchNames → Str → ℕ → ℕ → Type 0
  AllTaken names base counter count =
      (n : ℕ) → n < count → IsTaken names (candidate base (counter + n))

  later_taken :
      (names : BatchNames) (base : Str) (counter count : ℕ)
      → IsTaken names (candidate base counter)
      → AllTaken names base (suc counter) count
      → AllTaken names base counter (suc count)
  unfolding AllTaken
  later_taken names base counter count first later zero h =
      subst (λ (k : ℕ). IsTaken names (candidate base k)) (omega arith) first
  later_taken names base counter count first later (suc n) h =
      subst (λ (k : ℕ). IsTaken names (candidate base k)) {x = suc counter + n} (omega arith)
        (later n (omega arith))

  search-taken :
      (count : ℕ) (names : BatchNames) (base : Str) (counter : ℕ)
      → IsTaken names (candidate base counter)
      → search to_lowercase (suc count) names base counter
        ≡ search to_lowercase count names base (suc counter)
  unfolding search
  search-taken count names base counter h =
      ap
        (λ (r : BatchNames × Bool). elim r.1 as (λ b. BatchNames × Option Str) [
          | true ↦ (r.0, some (sanitize (candidate base counter)))
          | false ↦ search to_lowercase count r.0 base (suc counter)
        ])
        (claim-taken names (candidate base counter) h)

  search-free :
      (count : ℕ) (names : BatchNames) (base : Str) (counter : ℕ)
      → IsFree names (candidate base counter)
      → search to_lowercase (suc count) names base counter
        ≡ (claimed names (candidate base counter), some (sanitize (candidate base counter)))
  unfolding search
  search-free count names base counter h =
      ap
        (λ (r : BatchNames × Bool). elim r.1 as (λ b. BatchNames × Option Str) [
          | true ↦ (r.0, some (sanitize (candidate base counter)))
          | false ↦ search to_lowercase count r.0 base (suc counter)
        ])
        (claim-free names (candidate base counter) h)

  loop_later :
      (names : BatchNames) (base : Str) (counter count : ℕ)
      (result result' : BatchNames × Option Str)
      → IsTaken names (candidate base counter)
      → result' ≡ result
      → Found names base (suc counter) count result
      → Found names base counter (suc count) result'
  unfolding AllTaken
  loop_later names base counter count result result' first same found =
      let moved : candidate base (suc counter + found.at)
          ≡ candidate base (counter + suc found.at) =
        ap (candidate base) {x = suc counter + found.at} (omega arith) in
      record {
        at = suc found.at;
        in_range = omega (arith, found.in_range);
        free = subst (IsFree names) moved found.free;
        earlier = later_taken names base counter found.at first found.earlier;
        outcome = same ∙ found.outcome ∙ ap (λ c. (claimed names c, some (sanitize c))) moved;
      }

  loop_now :
      (count : ℕ) (names : BatchNames) (base : Str) (counter : ℕ)
      → IsFree names (candidate base counter)
      → Found names base counter (suc count) (search to_lowercase (suc count) names base counter)
  loop_now count names base counter h =
      let here : candidate base counter ≡ candidate base (counter + 0) =
        ap (candidate base) (omega arith) in
      record {
        at = 0;
        in_range = omega arith;
        free = subst (IsFree names) here h;
        earlier = λ n k. absurd (omega (arith, k));
        outcome =
            search-free count names base counter h
            ∙ ap (λ c. (claimed names c, some (sanitize c))) here;
      }

  Searched : BatchNames → Str → ℕ → ℕ → Type 0
  Searched names base counter count =
      let result = search to_lowercase count names base counter in
      Found names base counter count result
      ⊎ (AllTaken names base counter count × (result ≡ (names, none)))

  cases_later :
      (count : ℕ) (names : BatchNames) (base : Str) (counter : ℕ)
      → IsTaken names (candidate base counter)
      → Searched names base (suc counter) count
      → Searched names base counter (suc count)
  unfolding Searched
  cases_later count names base counter h (inl found) =
      inl
        (loop_later names base counter count _ _ h (search-taken count names base counter h) found)
  cases_later count names base counter h (inr (all, none_left)) = inr (
    later_taken names base counter count h all,
    search-taken count names base counter h ∙ none_left,
  )

  search_cases :
      (count : ℕ) (names : BatchNames) (base : Str) (counter : ℕ)
      → Searched names base counter count
  unfolding search AllTaken Searched
  search_cases zero names base counter = inr ((λ n h. absurd (omega (arith, h))), refl)
  search_cases (suc count) names base counter =
      elim (Bool-cases (contains names.taken (to_lowercase (candidate base counter)))) [
        | inr p ↦ inl (loop_now count names base counter p)
        | inl p ↦
            cases_later count names base counter p (search_cases count names base (suc counter))
      ]

  -- What an `assign` that hands out a name has done: it claimed the first of the candidates that was
  -- free, and handed it out, repaired once more.
  pub record Assigned (names : BatchNames) (value : Str) (result : BatchNames × Option Str)
      : Type 0 where
    pub attempt : ℕ
    pub within : attempt < suc rounds
    pub free : IsFree names (nth value attempt)
    pub earlier : (n : ℕ) → n < attempt → IsTaken names (nth value n)
    pub outcome : result ≡ (claimed names (nth value attempt), some (handed_out value attempt))

  assign-taken :
      (names : BatchNames) (value : Str)
      → IsTaken names (sanitize value)
      → assign to_lowercase names value ≡ search to_lowercase rounds names (sanitize value) 2
  unfolding assign
  assign-taken names value h =
      ap
        (λ (r : BatchNames × Bool). elim r.1 as (λ b. BatchNames × Option Str) [
          | true ↦ (r.0, some (sanitize value))
          | false ↦ search to_lowercase rounds r.0 (sanitize value) 2
        ])
        (claim-taken names (sanitize value) h)

  assign-free :
      (names : BatchNames) (value : Str)
      → IsFree names (sanitize value)
      → assign to_lowercase names value ≡ (claimed names (sanitize value), some (sanitize value))
  unfolding assign
  assign-free names value h =
      ap
        (λ (r : BatchNames × Bool). elim r.1 as (λ b. BatchNames × Option Str) [
          | true ↦ (r.0, some (sanitize value))
          | false ↦ search to_lowercase rounds r.0 (sanitize value) 2
        ])
        (claim-free names (sanitize value) h)

  all_taken :
      (names : BatchNames) (value : Str) (count : ℕ)
      → IsTaken names (sanitize value)
      → AllTaken names (sanitize value) 2 count
      → (n : ℕ) → n < suc count
      → IsTaken names (nth value n)
  unfolding AllTaken
  all_taken names value count first later zero h = first
  all_taken names value count first later (suc n) h =
      subst (λ (k : ℕ). IsTaken names (candidate (sanitize value) k)) {x = 2 + n} (omega arith)
        (later n (omega arith))

  search-Assigned :
      (names : BatchNames) (value : Str)
      → IsTaken names (sanitize value)
      → Found names (sanitize value) 2 rounds (search to_lowercase rounds names (sanitize value) 2)
      → Assigned names value (assign to_lowercase names value)
  unfolding AllTaken
  search-Assigned names value h found =
      let here : candidate (sanitize value) (2 + found.at) ≡ nth value (suc found.at) =
        ap (candidate (sanitize value)) {x = 2 + found.at} (omega arith) in
      record {
        attempt = suc found.at;
        within = omega (arith, found.in_range);
        free = subst (IsFree names) here found.free;
        earlier = all_taken names value found.at h found.earlier;
        outcome =
            assign-taken names value h
            ∙ found.outcome
            ∙ ap (λ c. (claimed names c, some (sanitize c))) here;
      }

  outcome_by_search :
      (names : BatchNames) (value : Str)
      → IsTaken names (sanitize value)
      → Searched names (sanitize value) 2 rounds
      → Assigned names value (assign to_lowercase names value)
        ⊎ (((n : ℕ) → n < suc rounds → IsTaken names (nth value n))
            × (assign to_lowercase names value ≡ (names, none)))
  unfolding Searched
  outcome_by_search names value h (inl found) = inl (search-Assigned names value h found)
  outcome_by_search names value h (inr (all, none_left)) =
      inr (all_taken names value rounds h all, assign-taken names value h ∙ none_left)

  -- Either the first free one of the candidates is claimed and handed out, repaired once more, or all of
  -- them, the repaired name itself and those with the counters 2 to 2 ^ 32 - 2, are taken, and the counter
  -- overflows with nothing claimed.
  pub assign_cases :
      (names : BatchNames) (value : Str)
      → Assigned names value (assign to_lowercase names value)
        ⊎ (((n : ℕ) → n < suc rounds → IsTaken names (nth value n))
            × (assign to_lowercase names value ≡ (names, none)))
  assign_cases names value =
      elim (Bool-cases (contains names.taken (to_lowercase (sanitize value)))) [
        | inr p ↦ inl (record {
          attempt = 0;
          within = omega arith;
          free = p;
          earlier = λ n h. absurd (omega (arith, h));
          outcome = assign-free names value p;
        })
        | inl p ↦ outcome_by_search names value p (search_cases rounds names (sanitize value) 2)
      ]
