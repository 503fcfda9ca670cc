-- ===== src/Analysis/Graph/Selected.antt =====
-- crates/analysis/src/graph.rs: the edges of the prepared graph are calls of the selection, all of them
-- when nothing is noted as cut or unknown.
use ferrum_atlas.Prelude.{
  ◌≡◌, refl, sym, ap, ◌∙◌, subst, ◌⊎◌, inl, inr, List, [], ◌∷◌, ◌++◌, Bool, true, false, not,
  Option, some, Result, ok, err, bind, ensure, bind-ok, Mem, Mem-append_left, Mem-append_right,
  Mem-append-cases, set_insert, ◌==◌, if◌then◌else◌,
}
use ferrum_atlas.Prelude.Text.{Text, text_eq, text_ord, codes}
use ferrum_atlas.Prelude.Maps.{at, put}
use ferrum_atlas.Model.{
  Status, complete, partial, status_eq, Status-discrete, UnknownReason, external_boundary,
}
use ferrum_atlas.Model.Definitions.{
  cfg_status_eq, Definition, Target, resolved, unknown_target, Relation,
}
use ferrum_atlas.Analysis.Envelope.{
  AnalysisError, invalid_input, AnalysisControl, stopped_at, stop_envelope, note_partial,
}
use ferrum_atlas.Analysis.Graph.Prepare.{
  CallEdge, Scan, Prepared, note, truncate, tick, stop, is_context, is_some, contains, scan_nodes,
  scan_edges, Link, outside, edge_to, frontier, link_target, link_of, add_link, link_calls,
}

-- Nothing was cut, and the coverage is complete.
abbrev pub IsClean : Scan → Type 0
IsClean s = (s.envelope.truncated ≡ false) × (s.envelope.coverage.status ≡ complete)

pub noted :
    (reason : UnknownReason) (message : Text) (s : Scan) → IsClean (note reason message s) → ⊥
unfolding note note_partial Status-discrete
noted reason message s h = lowered s.envelope.coverage.status h.1
  where
    lowered : (st : Status) → (if st == complete then partial else st) ≡ complete → ⊥
    lowered complete e = cc
    lowered partial e = cc
    lowered Status.failed e = cc
    lowered Status.unavailable e = cc

pub cut : (message : Text) (s : Scan) → IsClean (truncate message s) → ⊥
unfolding truncate note_partial
cut message s h = let t = h.0 in cc (t)

stopped : (control : AnalysisControl) (s : Scan) → IsClean (stop control s) → ⊥
unfolding stop stop_envelope note_partial
stopped control s h = let t = h.0 in cc (t)

abbrev pub Nodes : Type 0
Nodes = List (Text × Definition)

scan_nodes-IsClean :
    (control : AnalysisControl) (context : Option Text) (nodes : Nodes) (ds : List Definition)
    (s : Scan) (out : Nodes × Scan)
    → scan_nodes control context nodes ds s ≡ ok out
    → IsClean out.1
    → IsClean s
unfolding scan_nodes
scan_nodes-IsClean control context nodes [] s out h clean =
    subst (λ (r : Result AnalysisError (Nodes × Scan)). IsClean (elim r [ ok p ↦ p.1 | err e ↦ s ]))
      (sym h) clean
scan_nodes-IsClean control context nodes (d ∷ ds) s out h clean =
    go (stopped_at control s.clock) h (λ k.
      scan_nodes-IsClean control (some d.context_id) (put d.id d nodes) ds (tick s) out k clean)
  where
    go :
        (b : Bool)
        → (elim b [
          | true ↦ ok (nodes, stop control s)
          | false ↦
              bind
                (ensure
                  (is_context context d.context_id)
                  (invalid_input (codes "selected definitions mix build contexts")))
                λ _.
                  bind
                    (ensure
                      (not (is_some (at d.id nodes)))
                      (invalid_input (codes "duplicate definition identity")))
                    λ _. scan_nodes control (some d.context_id) (put d.id d nodes) ds (tick s)
        ])
          ≡ ok out
        → (scan_nodes control (some d.context_id) (put d.id d nodes) ds (tick s) ≡ ok out
            → IsClean (tick s))
        → IsClean s
    go true k ih = absurd (
        stopped control s (
          subst
            (λ (r : Result AnalysisError (Nodes × Scan)).
              IsClean (elim r [ ok p ↦ p.1 | err e ↦ s ]))
            (sym k) clean))
    go false k ih =
        let (u, a, rest) =
          bind-ok
            (ensure (is_context context d.context_id)
              (invalid_input (codes "selected definitions mix build contexts")))
            _ out k in
        let (v, b, rest') =
          bind-ok
            (ensure (not (is_some (at d.id nodes)))
              (invalid_input (codes "duplicate definition identity")))
            _ out rest in
        ih rest'

abbrev pub IsCall : Relation → Type 0
IsCall r = (r.kind == codes "calls") ≡ true

-- What the scan of the relations keeps.
abbrev pub IsScanned : List Relation → List Relation → Scan → List Relation × Scan → Type 0
IsScanned edges rs s out =
    ((r : Relation) → Mem r out.0 → Mem r edges ⊎ (Mem r rs × IsCall r))
    × (IsClean out.1
        → IsClean s × ((r : Relation) → Mem r edges ⊎ (Mem r rs × IsCall r) → Mem r out.0))

scan_step :
    (edges : List Relation) (r : Relation) (rs : List Relation) (s : Scan)
    (out : List Relation × Scan)
    → IsScanned (if r.kind == codes "calls" then edges ++ r ∷ [] else edges) rs (tick s) out
    → IsScanned edges (r ∷ rs) s out
scan_step edges r rs s out = go (r.kind == codes "calls") refl
  where
    go :
        (b : Bool)
        → (r.kind == codes "calls") ≡ b
        → IsScanned (if b then edges ++ r ∷ [] else edges) rs (tick s) out
        → IsScanned edges (r ∷ rs) s out
    go true e (from, to) = (
      λ q m. elim (from q m) [
        | inl old ↦ elim (Mem-append-cases q edges (r ∷ []) old) [
          | inl earlier ↦ inl earlier
          | inr one ↦ elim one [
            | inl same ↦
                inr (
                  inl same,
                  subst (λ (x : Relation). (x.kind == codes "calls") ≡ true) (sym same) e,
                )
            | inr nothing ↦ absurd nothing
          ]
        ]
        | inr later ↦ inr (inr later.0, later.1)
      ],
      λ clean.
          let (before, all_in) = to clean in
          (
            before,
            λ q m. elim m [
              | inl earlier ↦ all_in q (inl (Mem-append_left q edges (r ∷ []) earlier))
              | inr here ↦ elim here.0 [
                | inl same ↦ all_in q (inl (Mem-append_right q edges (r ∷ []) (inl same)))
                | inr later ↦ all_in q (inr (later, here.1))
              ]
            ],
          ),
    )
    go false e (from, to) = (
      λ q m. elim (from q m) [ inl old ↦ inl old | inr later ↦ inr (inr later.0, later.1) ],
      λ clean.
          let (before, all_in) = to clean in
          (
            before,
            λ q m. elim m [
              | inl earlier ↦ all_in q (inl earlier)
              | inr here ↦ elim here.0 [
                | inl same ↦ absurd (not_call q same here.1)
                | inr later ↦ all_in q (inr (later, here.1))
              ]
            ],
          ),
    )
      where
        not_call : (q : Relation) → q ≡ r → IsCall q → ⊥
        not_call q same call =
            let c = subst (λ (x : Relation). (x.kind == codes "calls") ≡ true) same call in
            cc (c, e)

pub scan_edges-IsScanned :
    (control : AnalysisControl) (ids : List Text) (edges rs : List Relation) (s : Scan)
    (out : List Relation × Scan)
    → scan_edges control ids edges rs s ≡ ok out
    → IsScanned edges rs s out
unfolding scan_edges
scan_edges-IsScanned control ids edges [] s out h =
    subst (IsScanned edges [] s)
      (ap
        (λ (r : Result AnalysisError (List Relation × Scan)). elim r [
          | ok p ↦ p
          | err e ↦ (edges, s)
        ])
        h)
      (
        (λ r m. inl m),
        (λ clean. (clean, λ r m. elim m [ inl old ↦ old | inr none_left ↦ absurd none_left.0 ])),
      )
scan_edges-IsScanned control ids edges (r ∷ rs) s out h = go (stopped_at control s.clock) h (λ k.
    scan_edges-IsScanned control (set_insert r.id ids)
      (if r.kind == codes "calls" then edges ++ r ∷ [] else edges) rs (tick s) out k)
  where
    go :
        (b : Bool)
        → (elim b [
          | true ↦ ok (edges, stop control s)
          | false ↦
              bind
                (ensure
                  (not (contains ids r.id))
                  (invalid_input (codes "duplicate relation identity")))
                λ _.
                  scan_edges control
                    (set_insert r.id ids)
                    (if r.kind == codes "calls" then edges ++ r ∷ [] else edges)
                    rs
                    (tick s)
        ])
          ≡ ok out
        → (scan_edges control
                (set_insert r.id ids)
                (if r.kind == codes "calls" then edges ++ r ∷ [] else edges)
                rs
                (tick s)
              ≡ ok out
            → IsScanned
                (if r.kind == codes "calls" then edges ++ r ∷ [] else edges)
                rs
                (tick s)
                out)
        → IsScanned edges (r ∷ rs) s out
    go true k ih =
        subst (IsScanned edges (r ∷ rs) s)
          (ap
            (λ (q : Result AnalysisError (List Relation × Scan)). elim q [
              | ok p ↦ p
              | err e ↦ (edges, s)
            ])
            k)
          ((λ q m. inl m), (λ clean. absurd (stopped control s clean)))
    go false k ih =
        let (u, a, rest) =
          bind-ok
            (ensure (not (contains ids r.id)) (invalid_input (codes "duplicate relation identity")))
            _ out k in
        scan_step edges r rs s out (ih rest)

abbrev pub call_edge : Relation → Text → CallEdge
call_edge r to = record { from = r.source; to = to; weight = r }

-- What the loop over the retained calls leaves.
pub record IsLinkedCalls (rs : List Relation) (p q : Prepared) : Type 0 where
  pub nodes : q.graph.nodes ≡ p.graph.nodes
  pub from :
      (e : CallEdge)
      → Mem e q.graph.edges
      → Mem e p.graph.edges
        ⊎ (Mem e.weight rs × (e.weight.source ≡ e.from) × (e.weight.target ≡ resolved e.to))
  pub grows : (e : CallEdge) → Mem e p.graph.edges → Mem e q.graph.edges
  pub clean :
      IsClean q.scan
      → IsClean p.scan
        × ((r : Relation)
            → Mem r rs
            → (to : Text) × (r.target ≡ resolved to) × Mem (call_edge r to) q.graph.edges)

link-resolved :
    (nodes : Nodes) (r : Relation) (to : Text)
    → link_of nodes r ≡ edge_to to
    → r.target ≡ resolved to
link-resolved nodes r to h = from_source (is_some (at r.source nodes)) h
  where
    inside :
        (b : Bool) (id : Text)
        → (if b then edge_to id else frontier (some id) external_boundary) ≡ edge_to to
        → resolved id ≡ resolved to
    inside true id k = ap (λ (l : Link). elim l [ edge_to x ↦ resolved x | other ↦ resolved id ]) k
    inside false id k = cc

    target : (t : Target) → link_target nodes t ≡ edge_to to → t ≡ resolved to
    target (resolved id) k = inside (is_some (at id nodes)) id k
    target (unknown_target reason label) k = cc

    from_source :
        (b : Bool)
        → (if b then link_target nodes r.target else outside) ≡ edge_to to
        → r.target ≡ resolved to
    from_source true k = target r.target k
    from_source false k = cc

link_step :
    (r : Relation) (rs : List Relation) (p q : Prepared) (l : Link)
    → ((to : Text) → l ≡ edge_to to → r.target ≡ resolved to)
    → IsLinkedCalls rs (add_link r l (record p { scan = tick p.scan })) q
    → IsLinkedCalls (r ∷ rs) p q
link_step r rs p q outside target k = record {
  nodes = k.nodes;
  from = λ e m. elim (k.from e m) [ inl old ↦ inl old | inr new ↦ inr (inr new.0, new.1, new.2) ];
  grows = k.grows;
  clean = λ c. absurd (
      noted external_boundary (codes "Call sites from outside the selected node set were omitted")
        (tick p.scan) (k.clean c).0);
}
link_step r rs p q (edge_to id) target k = record {
  nodes = k.nodes;
  from = λ e m. elim (k.from e m) [
    | inl old ↦ elim (Mem-append-cases e p.graph.edges (call_edge r id ∷ []) old) [
      | inl earlier ↦ inl earlier
      | inr one ↦ elim one [
        | inl same ↦ inr (
          inl (ap (λ (c : CallEdge). c.weight) same),
          ap (λ (c : CallEdge). c.weight.source) same ∙ sym (ap (λ (c : CallEdge). c.from) same),
          ap (λ (c : CallEdge). c.weight.target) same
              ∙ target id refl
              ∙ sym (ap (λ (c : CallEdge). resolved c.to) same),
        )
        | inr nothing ↦ absurd nothing
      ]
    ]
    | inr new ↦ inr (inr new.0, new.1, new.2)
  ];
  grows = λ e m. k.grows e (Mem-append_left e p.graph.edges (call_edge r id ∷ []) m);
  clean = λ c.
      let (before, others) = k.clean c in
      (
        before,
        λ x m. elim m [
          | inl same ↦ (
            id,
            subst (λ (y : Relation). y.target ≡ resolved id) (sym same) (target id refl),
            subst (λ (y : Relation). Mem (call_edge y id) q.graph.edges) (sym same)
                (k.grows (call_edge r id) (
                  Mem-append_right (call_edge r id) p.graph.edges (call_edge r id ∷ [])
                    (inl refl))),
          )
          | inr later ↦ others x later
        ],
      );
}
link_step r rs p q (frontier id reason) target k = record {
  nodes = k.nodes;
  from = λ e m. elim (k.from e m) [ inl old ↦ inl old | inr new ↦ inr (inr new.0, new.1, new.2) ];
  grows = k.grows;
  clean = λ c. absurd (
      noted reason (codes "Unresolved or unselected call targets remain explicit unknown frontiers")
        (tick p.scan) (k.clean c).0);
}

pub link_calls-IsLinkedCalls :
    (control : AnalysisControl) (rs : List Relation) (p : Prepared)
    → IsLinkedCalls rs p (link_calls control rs p)
unfolding link_calls
link_calls-IsLinkedCalls control [] p = record {
  nodes = refl;
  from = λ e m. inl m;
  grows = λ e m. m;
  clean = λ c. (c, λ r m. absurd m);
}
link_calls-IsLinkedCalls control (r ∷ rs) p = go (stopped_at control p.scan.clock) (
    link_step r rs p _ (link_of p.graph.nodes r) (λ to e. link-resolved p.graph.nodes r to e)
      (link_calls-IsLinkedCalls control rs
        (add_link r (link_of p.graph.nodes r) (record p { scan = tick p.scan }))))
  where
    go :
        (b : Bool)
        → IsLinkedCalls (r ∷ rs) p (
            link_calls control rs
              (add_link r (link_of p.graph.nodes r) (record p { scan = tick p.scan })))
        → IsLinkedCalls (r ∷ rs) p (elim b [
          | true ↦ record p { scan = stop control p.scan }
          | false ↦
              link_calls control rs
                (add_link r (link_of p.graph.nodes r) (record p { scan = tick p.scan }))
        ])
    go false k = k
    go true k = record {
      nodes = refl;
      from = λ e m. inl m;
      grows = λ e m. m;
      clean = λ c. absurd (stopped control p.scan c);
    }
