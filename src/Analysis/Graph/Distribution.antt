-- ===== src/Analysis/Graph/Distribution.antt =====
-- crates/analysis/src/graph.rs: what `distribution` gives for a list of values.
use ferrum_atlas.Prelude.{
  ℕ, ◌+◌, ◌-◌, ◌*◌, ◌/◌, ◌≤◌, ◌<◌, List, Option, some, leb→le, ◌≡◌, refl, ◌∙◌, Mem,
  Mem-sort_by_back, sort_by, length, get_elem?, count_if, ltb, leb, arith,
}
use ferrum_atlas.Prelude.Sorted.{
  Rising-sort_by, length-sort_by, count_if-sort_by, count_if-all, count_if-ltb, get_elem?-IsRanked,
  last?-get_elem?, Rising-get_elem?,
}
use ferrum_atlas.Prelude.Text.{Text}
use ferrum_atlas.Analysis.Graph.Metrics.{MetricDistribution, distribution_of, distribution}

-- A value that is taken from the list, with the values up to it and from it on.
pub record IsValue (values : List ℕ) (i : ℕ) (a : ℕ) : Type 0 where
  pub inside : Mem a values
  pub up_to : i < count_if (λ x. leb x a) values
  pub onward : length values ≤ i + count_if (λ x. leb a x) values

-- All is taken from the list, the ends bound every value, and half of the values are at least the
-- median. The median is the lowest value with half of the values at or below it, so the lower of two
-- middle ones; p95 is the lowest with 95 in 100 of them at or below it, which is the nearest rank.
pub record IsDistribution (metric : Text) (values : List ℕ) (d : MetricDistribution) : Type 0 where
  pub named : d.metric ≡ metric
  pub inside : Mem d.minimum values × Mem d.median values × Mem d.p95 values × Mem d.maximum values
  pub ordered : (d.minimum ≤ d.median) × (d.median ≤ d.p95) × (d.p95 ≤ d.maximum)
  pub bounds : (x : ℕ) → Mem x values → (d.minimum ≤ x) × (x ≤ d.maximum)
  pub half_up_to : length values ≤ 2 * count_if (λ x. leb x d.median) values
  pub half_onward : length values ≤ 2 * count_if (λ x. leb d.median x) values
  pub half_not_below : 2 * count_if (λ x. ltb x d.median) values < length values
  pub most_up_to : 95 * length values ≤ 100 * count_if (λ x. leb x d.p95) values
  pub most_not_below : 100 * count_if (λ x. ltb x d.p95) values < 95 * length values

module _ (values : List ℕ) where
  ranked :
      (i : ℕ)
      → i < length (sort_by ltb values)
      → (a : ℕ) × (get_elem? (sort_by ltb values) i ≡ some a) × IsValue values i a
  ranked i l =
      let (a, r) = get_elem?-IsRanked (sort_by ltb values) i (Rising-sort_by values) l in
      (
        a,
        r.here,
        record {
          inside = Mem-sort_by_back ltb a values r.inside;
          up_to = omega (arith, r.up_to, count_if-sort_by ltb (λ x. leb x a) values);
          onward = omega (
            arith,
            r.onward,
            length-sort_by ltb values,
            count_if-sort_by ltb (λ x. leb a x) values,
          );
        },
      )

  rises :
      (i j a b : ℕ)
      → i ≤ j
      → get_elem? (sort_by ltb values) i ≡ some a
      → get_elem? (sort_by ltb values) j ≡ some b
      → a ≤ b
  rises i j a b = Rising-get_elem? (sort_by ltb values) i j a b (Rising-sort_by values)

distribution_of-some :
    (metric : Text) {o p q r : Option ℕ} {a b c d : ℕ}
    → o ≡ some a
    → p ≡ some b
    → q ≡ some c
    → r ≡ some d
    → distribution_of metric o p q r
      ≡ some (record { metric = metric; minimum = a; median = b; p95 = c; maximum = d })
distribution_of-some metric eo ep eq er = cc

-- `distribution` has a value for every list that is not empty.
pub distribution-IsDistribution :
    (metric : Text) (values : List ℕ)
    → 0 < length values
    → (d : MetricDistribution) × (distribution metric values ≡ some d)
      × IsDistribution metric values d
unfolding distribution
distribution-IsDistribution metric values h =
    let n = length (sort_by ltb values) in
    let len = length-sort_by ltb values in
    let (a, ea, va) = ranked values 0 (omega (arith, h, len)) in
    let (b, eb, vb) = ranked values ((n - 1) / 2) (omega (arith, h, len)) in
    let (c, ec, vc) = ranked values ((n * 95 + 99) / 100 - 1) (omega (arith, h, len)) in
    let (d, ed, vd) = ranked values (n - 1) (omega (arith, h, len)) in
    (
      record { metric = metric; minimum = a; median = b; p95 = c; maximum = d },
      distribution_of-some metric ea eb ec
          (last?-get_elem? (sort_by ltb values) (omega (arith, h, len)) ∙ ed),
      record {
        named = refl;
        inside = (va.inside, vb.inside, vc.inside, vd.inside);
        ordered = (
          rises values 0 ((n - 1) / 2) a b (omega arith) ea eb,
          rises values ((n - 1) / 2) ((n * 95 + 99) / 100 - 1) b c (omega (arith, h, len)) eb ec,
          rises values ((n * 95 + 99) / 100 - 1) (n - 1) c d (omega (arith, h, len)) ec ed,
        );
        bounds = λ x m. (
          leb→le a x (count_if-all (λ y. leb a y) values x (omega (arith, va.onward)) m),
          leb→le x d (count_if-all (λ y. leb y d) values x (omega (arith, vd.up_to, len)) m),
        );
        half_up_to = omega (arith, vb.up_to, len);
        half_onward = omega (arith, vb.onward, len);
        half_not_below = omega (arith, h, len, vb.onward, count_if-ltb b values);
        most_up_to = omega (arith, vc.up_to, len);
        most_not_below = omega (arith, h, len, vc.onward, count_if-ltb c values);
      },
    )
