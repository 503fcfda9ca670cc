-- ===== src/Analysis/Complexity/Search.antt =====
-- A search of a graph, which shows that what petgraph documents of `Dfs` can hold.
use ferrum_atlas.Prelude.{
  inl, inr, ◌⊎◌, ◌≡◌, refl, sym, ap, ◌∙◌, subst, ℕ, zero, suc, ◌≤◌, List, [], ◌∷◌, Bool, true,
  false, Option, none, some, length, if◌then◌else◌, arith, Mem, nat_eq, Bool-cases, Option-cases,
}
use ferrum_atlas.Analysis.Complexity.Report.{Graph}
use ferrum_atlas.Analysis.Complexity.Shape.{contains}
use ferrum_atlas.Analysis.Complexity.Reach.{Reach, start, step, IsDfs}

-- The first edge that leaves the set, with the edges that are left.
abbrev put_back : ℕ × ℕ → Option (ℕ × List (ℕ × ℕ)) → Option (ℕ × List (ℕ × ℕ))
put_back e none = none
put_back e (some (y, rest)) = some (y, e ∷ rest)

unfoldable pick : List ℕ → List (ℕ × ℕ) → Option (ℕ × List (ℕ × ℕ))
pick seen [] = none
pick seen ((p, x) ∷ es) = if contains seen p then some (x, es) else put_back (p, x) (pick seen es)

abbrev next : List ℕ → (List ℕ → List (ℕ × ℕ) → List ℕ) → Option (ℕ × List (ℕ × ℕ)) → List ℕ
next seen go none = seen
next seen go (some (y, rest)) = go (y ∷ seen) rest

unfoldable walk : ℕ → List ℕ → List (ℕ × ℕ) → List ℕ
walk zero seen es = seen
walk (suc n) seen es = next seen (walk n) (pick seen es)

unfoldable pub search_from : Graph → ℕ → List ℕ
unfolding walk pick
search_from g root = walk (length g.edges) (root ∷ []) g.edges

contains-Mem : (x : ℕ) (seen : List ℕ) → contains seen x ≡ true → Mem x seen
contains-Mem x [] h = cc
contains-Mem x (y ∷ seen) h = ground (arith, contains-Mem x seen)

Mem-contains : (x : ℕ) (seen : List ℕ) → Mem x seen → contains seen x ≡ true
Mem-contains x [] h = absurd h
Mem-contains x (y ∷ seen) h = ground (arith, Mem-contains x seen)

record IsPick (seen : List ℕ) (es : List (ℕ × ℕ)) (y : ℕ) (rest : List (ℕ × ℕ)) : Type 0 where
  from : ℕ
  from_seen : Mem from seen
  taken : Mem (from, y) es
  left : (z : ℕ × ℕ) → Mem z rest → Mem z es
  covers : (z : ℕ × ℕ) → Mem z es → (z.1 ≡ y) ⊎ Mem z rest
  shorter : suc (length rest) ≡ length es

pick-IsPick :
    (seen : List ℕ) (es : List (ℕ × ℕ)) (y : ℕ) (rest : List (ℕ × ℕ))
    → pick seen es ≡ some (y, rest)
    → IsPick seen es y rest
unfolding pick
pick-IsPick seen [] y rest h = cc
pick-IsPick seen ((p, x) ∷ es) y rest h = elim (Bool-cases (contains seen p)) [
  | inl e ↦
      let it : ◌≡◌ {A = Option (ℕ × List (ℕ × ℕ))} (some (x, es)) (some (y, rest)) = rw e at h in
      let pair : ◌≡◌ {A = ℕ × List (ℕ × ℕ)} (x, es) (y, rest) =
        ap (λ (o : Option (ℕ × List (ℕ × ℕ))). elim o [ none ↦ (x, es) | some z ↦ z ]) it in
      let target : x ≡ y = ap (λ (z : ℕ × List (ℕ × ℕ)). z.0) pair in
      let same : es ≡ rest = ap (λ (z : ℕ × List (ℕ × ℕ)). z.1) pair in
      record {
        from = p;
        from_seen = contains-Mem p seen e;
        taken = inl (λ i. (p, sym target i));
        left = λ z m. inr (subst (Mem z) (sym same) m);
        covers = λ z m. elim m [
          | inl first ↦ inl (ap (λ (w : ℕ × ℕ). w.1) first ∙ target)
          | inr more ↦ inr (subst (Mem z) same more)
        ];
        shorter = ap suc (ap length (sym same));
      }
  | inr e ↦ later (pick seen es) (λ y' rest' k. pick-IsPick seen es y' rest' k) (rw e at h)
]
  where
    later :
        (o : Option (ℕ × List (ℕ × ℕ)))
        → ((y' : ℕ) (rest' : List (ℕ × ℕ)) → o ≡ some (y', rest') → IsPick seen es y' rest')
        → put_back (p, x) o ≡ some (y, rest)
        → IsPick seen ((p, x) ∷ es) y rest
    later none q k = cc
    later (some (y', rest')) q k =
        let pair : ◌≡◌ {A = ℕ × List (ℕ × ℕ)} (y', (p, x) ∷ rest') (y, rest) =
          ap
            (λ (o : Option (ℕ × List (ℕ × ℕ))). elim o [ none ↦ (y', (p, x) ∷ rest') | some z ↦ z ])
            k in
        let target : y' ≡ y = ap (λ (z : ℕ × List (ℕ × ℕ)). z.0) pair in
        let same : (p, x) ∷ rest' ≡ rest = ap (λ (z : ℕ × List (ℕ × ℕ)). z.1) pair in
        let r = q y' rest' refl in
        record {
          from = r.from;
          from_seen = r.from_seen;
          taken = inr (subst (λ w. Mem (r.from, w) es) target r.taken);
          left = λ z m. elim (subst (Mem z) (sym same) m) [
            | inl first ↦ inl first
            | inr more ↦ inr (r.left z more)
          ];
          covers = λ z m. elim m [
            | inl first ↦ inr (subst (Mem z) same (inl first))
            | inr more ↦ elim (r.covers z more) [
              | inl hit ↦ inl (hit ∙ target)
              | inr kept ↦ inr (subst (Mem z) same (inr kept))
            ]
          ];
          shorter = ap suc (sym (ap length same) ∙ r.shorter);
        }

pick-none :
    (seen : List ℕ) (es : List (ℕ × ℕ)) (p x : ℕ)
    → pick seen es ≡ none
    → Mem (p, x) es
    → contains seen p ≡ false
unfolding pick
pick-none seen [] p x h m = absurd m
pick-none seen ((q, y) ∷ es) p x h (inl first) = elim (Bool-cases (contains seen q)) [
  | inl e ↦ no_pick (rw e at h)
  | inr e ↦ subst (λ (z : ℕ × ℕ). contains seen z.0 ≡ false) (sym first) e
]
  where
    no_pick : ◌≡◌ {A = Option (ℕ × List (ℕ × ℕ))} (some (y, es)) none → contains seen p ≡ false
    no_pick k = cc
pick-none seen ((q, y) ∷ es) p x h (inr m) =
    pick-none seen es p x (rest_none (contains seen q) (pick seen es) h) m
  where
    rest_none :
        (b : Bool) (o : Option (ℕ × List (ℕ × ℕ)))
        → (if b then some (y, es) else put_back (q, y) o) ≡ none
        → o ≡ none
    rest_none true o k = cc
    rest_none false none k = refl
    rest_none false (some (y', rest')) k = cc

record IsClosed (g : Graph) (root : ℕ) (found : List ℕ) : Type 0 where
  sound : (x : ℕ) → Mem x found → Reach g root x
  closed : (p x : ℕ) → Mem (p, x) g.edges → Mem p found → Mem x found
  rooted : Mem root found

walk-IsClosed :
    (g : Graph) (root : ℕ) (n : ℕ) (seen : List ℕ) (es : List (ℕ × ℕ))
    → length es ≤ n
    → ((x : ℕ) → Mem x seen → Reach g root x)
    → ((z : ℕ × ℕ) → Mem z es → Mem z g.edges)
    → ((z : ℕ × ℕ) → Mem z g.edges → Mem z es ⊎ Mem z.1 seen)
    → Mem root seen
    → IsClosed g root (walk n seen es)
unfolding walk
walk-IsClosed g root zero seen [] l s c d r = record {
  sound = s;
  closed = λ p x m k. elim (d (p, x) m) [ inl e ↦ absurd e | inr e ↦ e ];
  rooted = r;
}
walk-IsClosed g root zero seen (e ∷ es) l s c d r = absurd (omega (arith, l))
walk-IsClosed g root (suc n) seen es l s c d r = elim (Option-cases (pick seen es)) [
  | inl stuck ↦
      subst (λ o. IsClosed g root (next seen (walk n) o)) (sym stuck)
        (record {
          sound = s;
          closed = λ p x m k. elim (d (p, x) m) [
            | inl unused ↦ absurd (unseen p x stuck unused k)
            | inr e ↦ e
          ];
          rooted = r;
        })
  | inr (hit, found) ↦
      let (y, rest) = hit in
      let p = pick-IsPick seen es y rest found in
      subst (λ o. IsClosed g root (next seen (walk n) o)) (sym found)
        (walk-IsClosed g root n (y ∷ seen) rest (omega (arith, p.shorter, l))
          (λ x m. elim m [
            | inl new ↦
                subst (Reach g root) (sym new)
                  (step p.from y (s p.from p.from_seen) (c (p.from, y) p.taken))
            | inr old ↦ s x old
          ])
          (λ z m. c z (p.left z m))
          (λ z m. elim (d z m) [
            | inl unused ↦ elim (p.covers z unused) [
              | inl here ↦ inr (inl here)
              | inr later ↦ inl later
            ]
            | inr old ↦ inr (inr old)
          ])
          (inr r))
]
  where
    unseen : (p x : ℕ) → pick seen es ≡ none → Mem (p, x) es → Mem p seen → ⊥
    unseen p x stuck unused k =
        let a = pick-none seen es p x stuck unused in let b = Mem-contains p seen k in cc (a, b)

reached :
    (g : Graph) (root : ℕ) (found : List ℕ) {x : ℕ}
    → IsClosed g root found
    → Reach g root x
    → Mem x found
reached g root found c start = c.rooted
reached g root found c (step p x r m) = c.closed p x m (reached g root found c r)

pub search_from-IsDfs : IsDfs search_from
unfolding search_from
search_from-IsDfs g root has x =
    let c =
      walk-IsClosed g root (length g.edges) (root ∷ []) g.edges (omega arith)
        (λ y m. elim m [ inl e ↦ subst (Reach g root) (sym e) start | inr e ↦ absurd e ]) (λ z m. m)
        (λ z m. inl m) (inl refl) in
    ((λ m. c.sound x m), (λ r. reached g root (walk (length g.edges) (root ∷ []) g.edges) c r))
