-- ===== src/Audit/Paths.antt =====
-- Where a ledger may be: `_confine_path`, `_resolve_key`, and the ledger's path from its opening to
-- `verify`. A path is the list of its parts; `resolve` is `Path.resolve` on an absolute path.
pub mod Confined
use cubiczan_resilience.Base.{
  String, str_eq, Bool, true, false, ◌&&◌, Option, none, some, ◌>>=◌, List, [], ◌∷◌, ◌++◌,
  if◌then◌else◌,
}
use cubiczan_resilience.Text.{Text, codes}

abbrev pub Parts : Type 0
Parts = List String

-- A `Path` before it is resolved.
pub record RawPath : Type 0 where
  pub is_absolute : Bool
  pub parts : Parts

-- `resolved.relative_to(base)` raises nothing.
unfoldable pub is_relative_to : Parts → Parts → Bool
is_relative_to p [] = true
is_relative_to [] (b ∷ base) = false
is_relative_to (k ∷ p) (b ∷ base) = str_eq k b && is_relative_to p base

-- `_resolve_key`, with the value of the environment variable.
unfoldable pub resolve_key : Option Text → Option Text → Text
resolve_key (some key) env = key
resolve_key none (some key) = key
resolve_key none none = codes "cubiczan-resilience-insecure-default-key"

-- The path and the base that an opened ledger keeps.
pub record Place : Type 0 where
  pub path : Parts
  pub base_dir : Parts

module _ (resolve : Parts → Parts) (cwd : Parts) where
  -- An absolute path, or one below `base`.
  abbrev pub below : Parts → RawPath → Parts
  below base p = if p.is_absolute then p.parts else base ++ p.parts

  -- `Path(base_dir) if base_dir is not None else Path.cwd()`, resolved.
  abbrev pub base_of : Option RawPath → Parts
  base_of none = resolve cwd
  base_of (some b) = resolve (below cwd b)

  -- `_confine_path`; `none` is `ValueError`.
  unfoldable pub confine_path : RawPath → Option RawPath → Option Parts
  unfolding is_relative_to
  confine_path path base_dir =
      let base = base_of base_dir in
      let resolved = resolve (below base path) in
      if is_relative_to resolved base then some resolved else none

  abbrev pub resolved_path : Parts → RawPath
  resolved_path p = record { is_absolute = true; parts = p }

  -- The paths of `AuditLedger.__init__`.
  unfoldable pub open_at : RawPath → Option RawPath → Option Place
  unfolding confine_path
  open_at path base_dir =
      let base = base_of base_dir in
      confine_path path (some (resolved_path base))
      >>= (λ p. some (record { path = p; base_dir = base }))

  -- The path that `AuditLedger.verify` reads.
  unfoldable pub verify_at : Place → Option Parts
  unfolding confine_path
  verify_at l = confine_path (resolved_path l.path) (some (resolved_path l.base_dir))
