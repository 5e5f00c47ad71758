-- ===== src/Bench/Range.antt =====
-- `populate_digest` of src/bench.c: the least and the greatest of the results.
use test_fs.Prelude.{
  ℕ, zero, suc, ◌≤◌, ◌<◌, ◌≡◌, refl, ◌∙◌, ◌⊎◌, inl, inr, some, List, [], ◌∷◌, arith, length, take,
}
use test_fs.Bytes.{CInt}
use test_fs.Bench.{
  LongLong, rank, m_min, m_max, BenchResult, BenchDigest, Surroundings, rounds_of, digest_from,
  digest_both, populate_digest,
}

-- A result is one of a list, and a property of all of them.
abbrev pub Among : LongLong → List LongLong → Type 0
Among z [] = ⊥
Among z (x ∷ xs) = (z ≡ x) ⊎ Among z xs

abbrev pub Each : (LongLong → Type 0) → List LongLong → Type 0
Each P [] = Unit {0}
Each P (x ∷ xs) = P x × Each P xs

-- The minimum and the maximum are results, and bound all results, as signed numbers.
pub record IsRangeOf {D : Type 0} (results : List LongLong) (r : BenchResult D) : Type 0 where
  pub below : Each (λ x. rank r.min_us ≤ rank x) results
  pub above : Each (λ x. rank x ≤ rank r.max_us) results
  pub min_among : Among r.min_us results
  pub max_among : Among r.max_us results

abbrev AtMost : LongLong → LongLong → Type 0
AtMost x y = rank x ≤ rank y

-- The smaller of two is one of them, and at most each.
m_min_lem :
    (x y : LongLong)
    → AtMost (m_min x y) x × AtMost (m_min x y) y × ((m_min x y ≡ x) ⊎ (m_min x y ≡ y))
m_min_lem x y = ground arith

m_max_lem :
    (x y : LongLong)
    → AtMost x (m_max x y) × AtMost y (m_max x y) × ((m_max x y ≡ x) ⊎ (m_max x y ≡ y))
m_max_lem x y = ground arith

-- A value among some results or the one of them so far is among those with one more.
wider_lem :
    {z y x r : LongLong} (xs : List LongLong)
    → (z ≡ y) ⊎ Among z xs
    → (y ≡ r) ⊎ (y ≡ x)
    → (z ≡ r) ⊎ ((z ≡ x) ⊎ Among z xs)
wider_lem xs (inl e) (inl f) = inl (e ∙ f)
wider_lem xs (inl e) (inr f) = inr (inl (e ∙ f))
wider_lem xs (inr a) _ = inr (inr a)

module _ (s : Surroundings) where
  -- What the loop makes of the results so far, `r`, and of those that it goes over.
  record IsWidened (results : List LongLong) (r d : BenchResult s.Double) : Type 0 where
    pub low : AtMost d.min_us r.min_us
    pub high : AtMost r.max_us d.max_us
    pub below : Each (λ x. AtMost d.min_us x) results
    pub above : Each (λ x. AtMost x d.max_us) results
    pub min_among : (d.min_us ≡ r.min_us) ⊎ Among d.min_us results
    pub max_among : (d.max_us ≡ r.max_us) ⊎ Among d.max_us results

  digest_from-run :
      (n : s.Double) (rounds : ℕ) (xs : List LongLong) (r : BenchResult s.Double)
      → rounds ≤ length xs
      → (d : BenchResult s.Double) × (digest_from s n rounds xs r ≡ some d)
        × IsWidened (take rounds xs) r d
  unfolding digest_from
  digest_from-run n zero xs r enough = (
    r,
    refl,
    record {
      low = omega arith;
      high = omega arith;
      below = tt;
      above = tt;
      min_among = inl refl;
      max_among = inl refl;
    },
  )
  digest_from-run n (suc rounds) [] r enough = absurd (omega (arith, enough))
  digest_from-run n (suc rounds) (x ∷ xs) r enough =
      let (first, second, one_of) = m_min_lem r.min_us x in
      let (first', second', one_of') = m_max_lem r.max_us x in
      let next : BenchResult s.Double = record {
        max_us = m_max r.max_us x;
        min_us = m_min r.min_us x;
        avg_us = s.add r.avg_us (s.div (s.of_long_long x) n);
      } in
      let (d, run, wide) = digest_from-run n rounds xs next (omega (arith, enough)) in
      (
        d,
        run,
        record {
          low = omega (arith, wide.low, first);
          high = omega (arith, wide.high, first');
          below = (omega (arith, wide.low, second), wide.below);
          above = (omega (arith, wide.high, second'), wide.above);
          min_among = wider_lem (take rounds xs) wide.min_among one_of;
          max_among = wider_lem (take rounds xs) wide.max_among one_of';
        },
      )

  -- With one round or more, the first result is one of those that are read.
  digest_from-IsRangeOf :
      (n : s.Double) (rounds : ℕ) (x : LongLong) (xs : List LongLong) (a : s.Double)
      → 0 < rounds
      → rounds ≤ length (x ∷ xs)
      → (d : BenchResult s.Double) × (digest_from s n rounds
            (x ∷ xs)
            (record { max_us = x; min_us = x; avg_us = a })
          ≡ some d)
        × IsRangeOf (take rounds (x ∷ xs)) d
  digest_from-IsRangeOf n zero x xs a some_rounds enough = absurd (omega arith)
  digest_from-IsRangeOf n (suc rounds) x xs a some_rounds enough =
      let (d, run, wide) =
        digest_from-run n (suc rounds) (x ∷ xs) (record { max_us = x; min_us = x; avg_us = a })
          enough in
      (
        d,
        run,
        record {
          below = wide.below;
          above = wide.above;
          min_among = elim wide.min_among [ inl e ↦ inl e | inr among ↦ among ];
          max_among = elim wide.max_among [ inl e ↦ inl e | inr among ↦ among ];
        },
      )

  -- When the number of trials is positive and each side has at least as many results,
  -- `populate_digest` gives a digest with the number of trials. On each side its minimum and its
  -- maximum are among the first `num_trials` results, and these lie between them, as signed 64-bit
  -- numbers.
  pub populate_digest-IsRangeOf :
      (results results' : List LongLong) (num_trials : CInt)
      → 0 < rounds_of num_trials
      → rounds_of num_trials ≤ length results
      → rounds_of num_trials ≤ length results'
      → (d : BenchDigest s.Double) × (populate_digest s results results' num_trials ≡ some d)
        × (d.trials ≡ num_trials)
        × IsRangeOf (take (rounds_of num_trials) results) d.sync
        × IsRangeOf (take (rounds_of num_trials) results') d.async
  unfolding populate_digest digest_both
  populate_digest-IsRangeOf [] results' num_trials some_trials many many' = absurd (omega arith)
  populate_digest-IsRangeOf (x ∷ xs) [] num_trials some_trials many many' = absurd (omega arith)
  populate_digest-IsRangeOf (x ∷ xs) (y ∷ ys) num_trials some_trials many many' =
      let n : ℕ = rounds_of num_trials in
      let (d, run, range) =
        digest_from-IsRangeOf (s.of_int num_trials) n x xs (s.of_int 0) some_trials many in
      let (d', run', range') =
        digest_from-IsRangeOf (s.of_int num_trials) n y ys (s.of_int 0) some_trials many' in
      (
        record { trials = num_trials; sync = d; async = d' },
        rw (run, run') refl,
        refl,
        range,
        range',
      )
