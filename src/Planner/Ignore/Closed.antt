-- ===== src/Planner/Ignore/Closed.antt =====
-- What `ShouldIgnore` ignores is closed under descent into a directory.
use mathlib.Core.List.{append_assoc, append-nil}
use syncrules.Prelude.{
  ℕ, suc, Text, text_eq, nat_eq, Bool, true, Option, List, [], ◌∷◌, ◌++◌, ◌==◌, ◌||◌, if◌then◌else◌,
  ltb, ◌≡◌, refl, inl, inr, arith, Bool-cases, lt→ltb, ◌∙◌,
}
use syncrules.Paths.{slash, grow, split_slash}
use syncrules.Paths.Parts.{split_slash-cons, split_slash-append}
use syncrules.Planner.Ignore.{tries, any_part, any_prefix, pattern_ignores, should_ignore}

-- The loop variable `currentPrefix` after the loop.
last_prefix : ℕ → Text → List Text → Text
last_prefix i current [] = current
last_prefix i current (part ∷ parts) =
    last_prefix (suc i) ((if ltb 0 i then current ++ (slash ∷ []) else current) ++ part) parts

-- The parts, each behind a separator.
joined : List Text → Text
joined [] = []
joined (part ∷ parts) = slash ∷ (part ++ joined parts)

last_prefix-joined :
    (i : ℕ) (current : Text) (parts : List Text)
    → last_prefix (suc i) current parts ≡ current ++ joined parts
unfolding last_prefix joined
last_prefix-joined i current [] = rw append-nil
last_prefix-joined i current (part ∷ parts) =
    rw (lt→ltb 0 (suc i) (omega arith))
      (last_prefix-joined (suc i) ((current ++ (slash ∷ [])) ++ part) parts ∙ simp append_assoc)

joined-grow :
    (c : ℕ) (parts : List Text) (s : Text)
    → joined parts ≡ slash ∷ s
    → joined (grow c parts) ≡ slash ∷ c ∷ s
unfolding joined
joined-grow c [] s h = cc
joined-grow c (part ∷ parts) s h = ground arith

joined-split_slash : (s : Text) → joined (split_slash s) ≡ slash ∷ s
unfolding joined split_slash
joined-split_slash [] = refl
joined-split_slash (c ∷ s) = elim (Bool-cases (c == slash)) [
  | inl h ↦ rw h (ground (arith, joined-split_slash s))
  | inr h ↦ rw h (joined-grow c (split_slash s) s (joined-split_slash s))
]

-- Over all the parts of a path the loop ends at the path itself.
last_prefix-split_slash : (s : Text) → last_prefix 0 [] (split_slash s) ≡ s
unfolding last_prefix joined
last_prefix-split_slash s =
    let (part, parts, e) = split_slash-cons s in
    rw e (ground (arith, last_prefix-joined 0 part parts, joined-split_slash s, e))

module _ (glob : Text → Text → Option Bool) (pattern : Text) where
  any_part-append :
      (xs ys : List Text)
      → any_part glob pattern (xs ++ ys) ≡ (any_part glob pattern xs || any_part glob pattern ys)
  unfolding any_part
  any_part-append [] ys = refl
  any_part-append (x ∷ xs) ys = ground (arith, any_part-append xs ys)

  any_prefix-append :
      (i : ℕ) (current : Text) (xs ys : List Text)
      → any_prefix glob pattern i current xs ≡ true
      → any_prefix glob pattern i current (xs ++ ys) ≡ true
  unfolding any_prefix
  any_prefix-append i current [] ys h = cc
  any_prefix-append i current (x ∷ xs) ys h = ground (
    arith,
    any_prefix-append (suc i) ((if ltb 0 i then current ++ (slash ∷ []) else current) ++ x) xs ys,
  )

  any_prefix-last :
      (i : ℕ) (current part : Text) (parts : List Text)
      → tries glob pattern (last_prefix i current (part ∷ parts)) ≡ true
      → any_prefix glob pattern i current (part ∷ parts) ≡ true
  unfolding any_prefix last_prefix
  any_prefix-last i current part [] h = ground arith
  any_prefix-last i current part (next ∷ parts) h = ground (
    arith,
    any_prefix-last (suc i) ((if ltb 0 i then current ++ (slash ∷ []) else current) ++ part) next
        parts h,
  )

  -- A pattern that matches a whole path matches a prefix of it.
  any_prefix-tries :
      (path : Text)
      → tries glob pattern path ≡ true
      → any_prefix glob pattern 0 [] (split_slash path) ≡ true
  any_prefix-tries path h =
      let (part, parts, e) = split_slash-cons path in
      rw e (any_prefix-last 0 [] part parts (rw (← e) (rw last_prefix-split_slash h)))

  pattern_ignores-descends :
      (path rest : Text)
      → pattern_ignores glob path pattern ≡ true
      → pattern_ignores glob (path ++ slash ∷ rest) pattern ≡ true
  unfolding pattern_ignores
  pattern_ignores-descends path rest h = rw split_slash-append (
      ground (
        arith,
        any_part-append (split_slash path) (split_slash rest),
        any_prefix-append 0 [] (split_slash path) (split_slash rest),
        any_prefix-tries path,
      ))

-- If a path is ignored, then so is every path below it.
pub should_ignore-descends :
    (glob : Text → Text → Option Bool) (path rest : Text) (patterns : List Text)
    → should_ignore glob path patterns ≡ true
    → should_ignore glob (path ++ slash ∷ rest) patterns ≡ true
unfolding should_ignore
should_ignore-descends glob path rest [] h = cc
should_ignore-descends glob path rest (pattern ∷ patterns) h = ground (
  arith,
  pattern_ignores-descends glob pattern path rest,
  should_ignore-descends glob path rest patterns,
)
