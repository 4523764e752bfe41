-- ===== src/Paths.antt =====
-- What the program uses of Go's `path`, and of `path/filepath` where the separator is `/`: a path is
-- split at its slashes, and its parts are resolved with a stack.
pub mod Parts
pub mod Inside
pub mod Relative
use syncrules.Prelude.{
  ℕ, Text, text_eq, nat_eq, codes, Bool, true, false, not, Option, none, some, List, [], ◌∷◌, ◌++◌,
  ◌==◌, ◌&&◌, ◌||◌, if◌then◌else◌,
}
use mathlib.Core.List.{reverse}
use mathlib.Core.Option

abbrev pub slash : ℕ
slash = b'/'

-- The parts of the names `.` and `..`.
abbrev pub dot : Text
dot = codes "."

abbrev pub dots : Text
dots = codes ".."

-- The first part of what `strings.Split` returns for `c ∷ s`, from the parts of `s`.
abbrev pub grow : ℕ → List Text → List Text
grow c [] = (c ∷ []) ∷ []
grow c (part ∷ parts) = (c ∷ part) ∷ parts

-- `strings.Split(s, "/")`
unfoldable pub split_slash : Text → List Text
split_slash [] = [] ∷ []
split_slash (c ∷ s) = let rest = split_slash s in if c == slash then [] ∷ rest else grow c rest

-- `strings.TrimSuffix(s, "/")`
unfoldable pub trim_slash : Text → Text
trim_slash [] = []
trim_slash (c ∷ []) = if c == slash then [] else c ∷ []
trim_slash (c ∷ d ∷ s) = c ∷ trim_slash (d ∷ s)

-- `strings.Join(parts, "/")`
unfoldable pub join_slash : List Text → Text
join_slash [] = []
join_slash (part ∷ []) = part
join_slash (part ∷ next ∷ parts) = part ++ slash ∷ join_slash (next ∷ parts)

-- `path.IsAbs`
unfoldable pub is_abs : Text → Bool
is_abs [] = false
is_abs (c ∷ s) = c == slash

-- `..` takes the last part away; there is nothing above `/`, and a relative path keeps its `..`.
back_up : Bool → List Text → List Text
back_up true [] = []
back_up false [] = dots ∷ []
back_up rooted (top ∷ stack) = if top == dots then dots ∷ top ∷ stack else stack

-- One part of the path; the stack has the last part first.
pub push_part : Bool → List Text → Text → List Text
unfolding back_up
push_part rooted stack part =
    if part == [] || part == dot
    then stack
    else if part == dots
    then back_up rooted stack
    else part ∷ stack

pub clean_parts : Bool → List Text → List Text → List Text
unfolding push_part
clean_parts rooted stack [] = stack
clean_parts rooted stack (part ∷ parts) = clean_parts rooted (push_part rooted stack part) parts

unfoldable pub render : Bool → List Text → Text
unfolding join_slash
render true parts = slash ∷ join_slash parts
render false [] = dot
render false (part ∷ parts) = join_slash (part ∷ parts)

-- The parts of a path when it is clean.
unfoldable pub parts_of : Text → List Text
unfolding clean_parts split_slash is_abs
parts_of p = reverse (clean_parts (is_abs p) [] (split_slash p))

-- `path.Clean`
unfoldable pub clean : Text → Text
unfolding parts_of render is_abs
clean p = render (is_abs p) (parts_of p)

-- `path.Join` of two elements; empty ones are left out.
unfoldable pub join : Text → Text → Text
unfolding clean
join [] [] = []
join [] (c ∷ q) = clean (c ∷ q)
join (c ∷ p) [] = clean (c ∷ p)
join (c ∷ p) (d ∷ q) = clean ((c ∷ p) ++ slash ∷ d ∷ q)

not_empty : List Text → List Text
not_empty [] = []
not_empty ([] ∷ parts) = not_empty parts
not_empty ((c ∷ part) ∷ parts) = (c ∷ part) ∷ not_empty parts

clean_joined : List Text → Text
unfolding clean join_slash
clean_joined [] = []
clean_joined (part ∷ parts) = clean (join_slash (part ∷ parts))

-- `path.Join`
unfoldable pub join_all : List Text → Text
unfolding not_empty clean_joined
join_all parts = clean_joined (not_empty parts)

-- Up to the last slash, with it.
upto_slash : Text → Text
upto_slash [] = []
upto_slash (c ∷ s) =
    let rest = upto_slash s in if c == slash then c ∷ rest else if rest == [] then [] else c ∷ rest

-- `path.Dir`
unfoldable pub dir : Text → Text
unfolding clean upto_slash
dir p = clean (upto_slash p)

strip_slashes : Text → Text
strip_slashes [] = []
strip_slashes (c ∷ s) =
    let rest = strip_slashes s in if c == slash && rest == [] then [] else c ∷ rest

last_part : List Text → Text
last_part [] = []
last_part (part ∷ []) = part
last_part (part ∷ next ∷ parts) = last_part (next ∷ parts)

-- `path.Base`
unfoldable pub base : Text → Text
unfolding strip_slashes last_part split_slash
base [] = dot
base (c ∷ p) =
    let name = last_part (split_slash (strip_slashes (c ∷ p))) in
    if name == [] then slash ∷ [] else name

-- The elements that are left of both paths after their common ones, with `..` for each of the first.
up_and_down : List Text → List Text → List Text
up_and_down [] target = target
up_and_down (part ∷ parts) target = dots ∷ up_and_down parts target

pub rel_parts : List Text → List Text → Option (List Text)
unfolding up_and_down
rel_parts [] target = some target
rel_parts (part ∷ parts) [] = if part == dots then none else some (up_and_down (part ∷ parts) [])
rel_parts (part ∷ parts) (name ∷ names) =
    let rest = rel_parts parts names in
    if part == name
    then rest
    else if part == dots
    then none
    else some (up_and_down (part ∷ parts) (name ∷ names))

-- `filepath.Rel(base, target)`: `none` is its error.
unfoldable pub rel : Text → Text → Option Text
unfolding rel_parts clean parts_of is_abs join_slash
rel from target =
    if clean from == clean target
    then some dot
    else if (if is_abs from then is_abs target else not (is_abs target))
    then Option.map join_slash (rel_parts (parts_of from) (parts_of target))
    else none
