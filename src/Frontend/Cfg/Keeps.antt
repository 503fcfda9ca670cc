-- ===== src/Frontend/Cfg/Keeps.antt =====
-- crates/frontend-ra/src/configuration.rs: the status of an attribute, against what the compiler does
-- with the item.
use ferrum_atlas.Prelude.{
  refl, List, [], ◌∷◌, Bool, true, false, Option, none, some, all, if◌then◌else◌,
}
use ferrum_atlas.Model.Definitions.{CfgStatus, active, inactive, unknown}
use ferrum_atlas.Frontend.Cfg.Syntax.{
  CfgPredicate, Meta, cfg_meta, cfg_attr_meta, unsafe_meta, unsafe_empty, other_meta, Metas,
  no_metas, next_meta,
}
use ferrum_atlas.Frontend.Cfg.Predicate.{
  Settings, combine, predicate_or, when_active, meta_status, metas_status,
}
use ferrum_atlas.Frontend.Cfg.Sound.{
  Build, evaluate, Allows, Claims, AllClaim, Claims-all, predicate-Claims,
}

abbrev pub evaluate_or : Build → Option CfgPredicate → Bool
evaluate_or build none = build.odd_attribute
evaluate_or build (some p) = evaluate build p

-- Whether an item with this attribute is kept: `cfg` keeps it when its predicate holds, and `cfg_attr`
-- puts its attributes in place when its predicate holds.
unfoldable mutual
  pub keeps : Build → Meta → Bool
  keeps build (cfg_meta p) = evaluate_or build p
  keeps build (cfg_attr_meta p metas) =
      if evaluate_or build p then all (λ b. b) (keeps_all build metas) else true
  keeps build (unsafe_meta inner) = true
  keeps build unsafe_empty = true
  keeps build (other_meta name) = true

  pub keeps_all : Build → Metas → List Bool
  keeps_all build no_metas = []
  keeps_all build (next_meta m ms) = keeps build m ∷ keeps_all build ms

Claims-or :
    (settings : Settings) (build : Build) (p : Option CfgPredicate)
    → Allows settings build
    → Claims (predicate_or settings p) (evaluate_or build p)
Claims-or settings build none allows = tt
Claims-or settings build (some p) allows = predicate-Claims settings build p allows

Claims-when :
    (s t : CfgStatus) (b c : Bool)
    → Claims s b
    → Claims t c
    → Claims (when_active s t) (if b then c else true)
Claims-when active t b c h k = rw h k
Claims-when inactive t b c h k = rw h refl
Claims-when unknown t b c h k = tt

Claims-combine :
    (ss : List CfgStatus) (bs : List Bool)
    → AllClaim ss bs
    → Claims (combine ss false) (all (λ b. b) bs)
unfolding combine
Claims-combine ss bs h = Claims-all false ss bs h

module _ (settings : Settings) (build : Build) (allows : Allows settings build) where
  mutual
    unfolding meta_status keeps

    Claims-meta : (m : Meta) → Claims (meta_status settings m) (keeps build m)
    Claims-meta (cfg_meta p) = Claims-or settings build p allows
    Claims-meta (cfg_attr_meta p metas) =
        Claims-when (predicate_or settings p) (combine (metas_status settings metas) false)
          (evaluate_or build p) (all (λ b. b) (keeps_all build metas))
          (Claims-or settings build p allows)
          (Claims-combine (metas_status settings metas) (keeps_all build metas)
            (Claims-metas metas))
    Claims-meta (unsafe_meta inner) = refl
    Claims-meta unsafe_empty = refl
    Claims-meta (other_meta name) = refl

    Claims-metas : (ms : Metas) → AllClaim (metas_status settings ms) (keeps_all build ms)
    Claims-metas no_metas = tt
    Claims-metas (next_meta m ms) = (Claims-meta m, Claims-metas ms)

-- The status of an attribute refines what the compiler does: in every build that the settings allow,
-- an item whose attribute is `Active` is kept by that attribute, and one whose attribute is
-- `Inactive` is removed, also through `cfg_attr` at any depth.
pub meta_status-Claims :
    (settings : Settings) (build : Build) (m : Meta)
    → Allows settings build
    → Claims (meta_status settings m) (keeps build m)
meta_status-Claims settings build m allows = Claims-meta settings build allows m
