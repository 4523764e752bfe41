-- ===== src/Planner/Ignore.antt =====
-- `ShouldIgnore` of internal/core/planner/planner.go. The separator is `/`, so that `filepath.ToSlash`
-- is the identity.
pub mod Closed
use syncrules.Prelude.{
  ℕ, suc, ◌+◌, Text, text_eq, nat_eq, Bool, true, false, not, Option, some, List, [], ◌∷◌, ◌++◌,
  ◌==◌, ◌&&◌, ◌||◌, if◌then◌else◌, ltb,
}
use syncrules.Paths.{slash, split_slash, trim_slash}

-- `filepath.Match`: `none` is its error `ErrBadPattern`.
module _ (glob : Text → Text → Option Bool) where
  -- `err == nil && matched`
  matches : Text → Text → Bool
  matches pattern name = elim (glob pattern name) [ some matched ↦ matched | _ ↦ false ]

  -- One name against a pattern, then against the trimmed pattern if that differs.
  tries : Text → Text → Bool
  unfolding matches
  tries pattern name =
      matches pattern name
      || (not (pattern == trim_slash pattern) && matches (trim_slash pattern) name)

  -- Case 3: any component of the path.
  any_part : Text → List Text → Bool
  any_part pattern [] = false
  any_part pattern (part ∷ parts) = tries pattern part || any_part pattern parts

  -- Case 4: any prefix of the path. The loop over the parts from index `i` on.
  any_prefix : Text → ℕ → Text → List Text → Bool
  any_prefix pattern i current [] = false
  any_prefix pattern i current (part ∷ parts) =
      let current' = (if ltb 0 i then current ++ (slash ∷ []) else current) ++ part in
      tries pattern current' || any_prefix pattern (suc i) current' parts

  -- The body of the loop over the patterns.
  pattern_ignores : Text → Text → Bool
  pattern_ignores path pattern =
      tries pattern path
      || (any_part pattern (split_slash path) || any_prefix pattern 0 [] (split_slash path))

  -- `ShouldIgnore`; with no patterns the loop does not run.
  unfoldable pub should_ignore : Text → List Text → Bool
  unfolding tries any_part any_prefix pattern_ignores split_slash trim_slash
  should_ignore path [] = false
  should_ignore path (pattern ∷ patterns) =
      pattern_ignores path pattern || should_ignore path patterns
