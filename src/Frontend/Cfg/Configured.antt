-- ===== src/Frontend/Cfg/Configured.antt =====
-- crates/frontend-ra/src/configuration.rs: `Configurations::new` fails only for a manifest that does not
-- parse.
use ferrum_atlas.Prelude.{
  ◌≡◌, subst, refl, ap, ◌∙◌, inl, inr, List, [], ◌∷◌, Bool, true, false, Option, none, some, Result,
  ok, err, bind, ok_or, Mem, if◌then◌else◌,
}
use ferrum_atlas.Prelude.Text.{Text, codes, ends_with}
use ferrum_atlas.Model.{BuildContext, CrateInput}
use ferrum_atlas.Frontend.Cfg.Predicate.{Settings, selected}
use ferrum_atlas.Frontend.Cfg.Features.{
  Value, Manifests, Roots, Configurations, ConfigurationError, unparsed, endless, first_pending,
  is_primary, owner_of, declared_by, add_selected, crate_settings, add_root, collect_roots,
  is_unresolved, finish_roots, features_of, new_parsed, parse_manifests, new_configurations,
}
use ferrum_atlas.Frontend.Cfg.Requested.{enabled_features-IsClosed}

crate_settings-some :
    (manifests : Manifests) (context : BuildContext) (krate : CrateInput)
    → (s : Settings) × (crate_settings manifests context krate ≡ some s)
unfolding crate_settings
crate_settings-some manifests context krate =
    let declared = declared_by (owner_of manifests krate) in
    let (s, e, c) =
      enabled_features-IsClosed context declared
        (first_pending context (is_primary (owner_of manifests krate)) declared) in
    (
      add_selected (selected context.cfg (codes "feature")) s,
      ap
          (λ o. elim o [
            | none ↦ none
            | some t ↦ some (add_selected (selected context.cfg (codes "feature")) t)
          ])
          e,
    )

collect_roots-some :
    (manifests : Manifests) (context : BuildContext) (crates : List CrateInput)
    (state : Roots × Bool)
    → (out : Roots × Bool) × (collect_roots manifests context crates state ≡ some out)
unfolding collect_roots
collect_roots-some manifests context [] state = (state, refl)
collect_roots-some manifests context (krate ∷ crates) state =
    let (s, e) = crate_settings-some manifests context krate in
    let (roots, unresolved) = state in
    let (next, n) = added krate s state in
    let (out, o) = collect_roots-some manifests context crates next in
    (
      out,
      ap
            (λ c. elim (add_root krate c state) [
              | none ↦ none
              | some t ↦ collect_roots manifests context crates t
            ])
            e
          ∙ ap (λ c. elim c [ none ↦ none | some t ↦ collect_roots manifests context crates t ]) n
          ∙ o,
    )
  where
    added :
        (k : CrateInput) (s : Settings) (st : Roots × Bool)
        → (next : Roots × Bool) × (add_root k (some s) st ≡ some next)
    added k s (roots, unresolved) = (_, refl)

new_parsed-some :
    (manifests : Manifests) (context : BuildContext)
    → (c : Configurations) × (new_parsed manifests context ≡ some c)
unfolding new_parsed
new_parsed-some manifests context =
    let (state, e) =
      collect_roots-some manifests context context.crates ([], is_unresolved manifests context) in
    (
      _,
      ap
          (λ o. elim o [
            | none ↦ none
            | some s ↦ some (record {
              roots = finish_roots s;
              fallback = record {
                cfg = context.cfg;
                features = features_of context.features;
                unknown_features = true;
              };
            })
          ])
          e,
    )

-- A manifest of the source that the parser refuses.
abbrev pub IsUnparsed : (Text → Option Value) → List (Text × Text) → ConfigurationError → Type 0
IsUnparsed parse sources (unparsed path) =
    (text : Text) × Mem (path, text) sources
    × (parse text ≡ none)
    × (ends_with path (codes "Cargo.toml") ≡ true)
IsUnparsed parse sources endless = ⊥

parse_manifests-IsUnparsed :
    (parse : Text → Option Value) (sources : List (Text × Text)) (e : ConfigurationError)
    → parse_manifests parse sources ≡ err e
    → IsUnparsed parse sources e
unfolding parse_manifests
parse_manifests-IsUnparsed parse [] e h = cc
parse_manifests-IsUnparsed parse ((path, text) ∷ sources) e h =
    go (ends_with path (codes "Cargo.toml")) refl (parse text) refl (parse_manifests parse sources)
      (λ x k. parse_manifests-IsUnparsed parse sources x k) h
  where
    further :
        (x : ConfigurationError)
        → IsUnparsed parse sources x
        → IsUnparsed parse ((path, text) ∷ sources) x
    further (unparsed p) (t, m, n, s) = (t, inr m, n, s)
    further endless u = u

    go :
        (is_manifest : Bool)
        → ends_with path (codes "Cargo.toml") ≡ is_manifest
        → (parsed : Option Value) → parse text ≡ parsed
        → (rest : Result ConfigurationError Manifests)
        → ((x : ConfigurationError) → rest ≡ err x → IsUnparsed parse sources x)
        → (if is_manifest
            then elim parsed [
              | none ↦ err (unparsed path)
              | some manifest ↦ bind rest (λ more. ok ((path, manifest) ∷ more))
            ]
            else rest)
          ≡ err e
        → IsUnparsed parse ((path, text) ∷ sources) e
    go false s o p rest ih k = further e (ih e k)
    go true s none p rest ih k =
        subst (IsUnparsed parse ((path, text) ∷ sources))
          (ap (λ r. elim r [ ok m ↦ e | err x ↦ x ]) k) (text, inl refl, p, s)
    go true s (some manifest) p (ok more) ih k = cc
    go true s (some manifest) p (err x) ih k =
        further e (ih e (ap (λ r. elim r [ ok m ↦ err e | err y ↦ err y ]) k))

-- Whatever the source, the context and the parser, an error of `Configurations::new` is that of a
-- `Cargo.toml` of the source that the parser refuses; its loops end.
pub new_configurations-IsUnparsed :
    (parse : Text → Option Value) (sources : List (Text × Text)) (context : BuildContext)
    (e : ConfigurationError)
    → new_configurations parse sources context ≡ err e
    → IsUnparsed parse sources e
unfolding new_configurations
new_configurations-IsUnparsed parse sources context e h =
    go (parse_manifests parse sources) (λ x k. parse_manifests-IsUnparsed parse sources x k) h
  where
    never :
        (o : Option Configurations) (c : Configurations) → o ≡ some c → ok_or o endless ≡ err e → ⊥
    never none c s k = cc
    never (some d) c s k = cc

    go :
        (r : Result ConfigurationError Manifests)
        → ((x : ConfigurationError) → r ≡ err x → IsUnparsed parse sources x)
        → bind r (λ manifests. ok_or (new_parsed manifests context) endless) ≡ err e
        → IsUnparsed parse sources e
    go (ok manifests) ih k =
        let (c, s) = new_parsed-some manifests context in
        absurd (never (new_parsed manifests context) c s k)
    go (err x) ih k = ih e (ap (λ r. elim r [ ok m ↦ err e | err y ↦ err y ]) k)
