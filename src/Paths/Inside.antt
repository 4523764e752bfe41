-- ===== src/Paths/Inside.antt =====
-- What `path.Join` and `filepath.Rel` make of a clean root.
use mathlib.Core.List.{append-nil, reverse, reverse-reverse}
use mathlib.Core.Option
use syncrules.Prelude.{
  Text, text_eq, text_iff, text_beq, text_beq_refl, length, length-append, true, false, some, List,
  [], ◌∷◌, ◌++◌, ◌==◌, if◌then◌else◌, ◌≡◌, ◌⊎◌, refl, inl, inr, ap, sym, ◌∙◌, arith, Bool-cases,
  All, All-map, has_prefix,
}
use syncrules.Paths.{
  dot, dots, split_slash, join_slash, is_abs, push_part, clean_parts, render, parts_of, clean,
  up_and_down, rel_parts, rel,
}
use syncrules.Paths.Parts.{
  NoSlash, IsName, split_slash-NoSlash, split_slash-join_slash, clean_parts_of_names,
  clean_parts-IsName, All-reverse,
}

-- The path of `/` and names below it.
abbrev pub rooted : List Text → Text
rooted parts = render true parts

pub names-NoSlash : (parts : List Text) → All IsName parts → All NoSlash parts
names-NoSlash parts h = All-map IsName NoSlash parts (λ part (_, _, _, n). n) h

-- The stack that the parts of a text of joined names leave.
pub clean_parts-join_slash :
    (stack parts : List Text)
    → All IsName parts
    → clean_parts true stack (split_slash (join_slash parts)) ≡ reverse parts ++ stack
unfolding clean_parts split_slash join_slash push_part text_beq
clean_parts-join_slash stack [] h = refl
clean_parts-join_slash stack (part ∷ parts) h =
    ap (clean_parts true stack) (split_slash-join_slash part parts (names-NoSlash (part ∷ parts) h))
    ∙ clean_parts_of_names true stack (part ∷ parts) h

pub clean_parts-rooted :
    (parts : List Text)
    → All IsName parts
    → clean_parts true [] (split_slash (rooted parts)) ≡ reverse parts
unfolding render split_slash clean_parts push_part text_beq
clean_parts-rooted parts h = clean_parts-join_slash [] parts h ∙ append-nil (reverse parts)

pub parts_of-rooted : (parts : List Text) → All IsName parts → parts_of (rooted parts) ≡ parts
unfolding parts_of render is_abs
parts_of-rooted parts h = ap reverse (clean_parts-rooted parts h) ∙ reverse-reverse parts

-- A clean absolute path is `/` and names.
pub parts_of-IsName : (s : Text) → is_abs s ≡ true → All IsName (parts_of s)
unfolding parts_of
parts_of-IsName s h =
    rw h (All-reverse IsName _ (clean_parts-IsName [] (split_slash s) tt (split_slash-NoSlash s)))

rel_parts-cases :
    (from target : List Text)
    → All IsName from
    → ((rest : List Text) × (target ≡ from ++ rest) × (rel_parts from target ≡ some rest))
      ⊎ ((name : Text) × (names more : List Text) × (rel_parts from target
            ≡ some (up_and_down (name ∷ names) more)))
unfolding rel_parts
rel_parts-cases [] target h = inl (target, refl, refl)
rel_parts-cases (part ∷ parts) [] h = inr (part, parts, [], ground (arith, text_iff part dots))
rel_parts-cases (part ∷ parts) (name ∷ names) h = elim (Bool-cases (part == name)) [
  | inl same ↦ elim (rel_parts-cases parts names h.1) [
    | inl (rest, e, r) ↦ inl (rest, ground (arith, text_iff part name), rw same r)
    | inr (up, ups, more, r) ↦ inr (up, ups, more, rw same r)
  ]
  | inr other ↦ inr (part, parts, name ∷ names, ground (arith, text_iff part dots))
]

-- Going up shows in the text.
pub dots-has_prefix : (rest : List Text) → has_prefix (join_slash (dots ∷ rest)) dots ≡ true
unfolding join_slash has_prefix
dots-has_prefix [] = refl
dots-has_prefix (_ ∷ _) = refl

up_and_down-has_prefix :
    (name : Text) (names more : List Text)
    → has_prefix (join_slash (up_and_down (name ∷ names) more)) dots ≡ true
unfolding up_and_down
up_and_down-has_prefix name names more = dots-has_prefix (up_and_down names more)

pub is_abs-rooted : (parts : List Text) → is_abs (rooted parts) ≡ true
unfolding is_abs render
is_abs-rooted parts = refl

clean-rooted : (parts : List Text) → All IsName parts → clean (rooted parts) ≡ rooted parts
unfolding clean
clean-rooted parts h = ap rooted (parts_of-rooted parts h)

rooted-injective :
    (root target : List Text)
    → All IsName root
    → All IsName target
    → rooted root ≡ rooted target
    → target ≡ root
rooted-injective root target h k e =
    sym (parts_of-rooted target k) ∙ ap parts_of (sym e) ∙ parts_of-rooted root h

pub rel-rooted :
    (root target : List Text)
    → All IsName root
    → All IsName target
    → rel (rooted root) (rooted target) ≡ (
        if rooted root == rooted target
        then some dot
        else Option.map join_slash (rel_parts root target))
unfolding rel
rel-rooted root target h k =
    rw
      (clean-rooted root h, clean-rooted target k, parts_of-rooted root h, parts_of-rooted target k)
      refl

-- Seen from a clean root, a clean absolute path lies below it, or going there shows `..`.
pub rel-below :
    (root target : List Text) (r : Text)
    → All IsName root
    → All IsName target
    → rel (rooted root) (rooted target) ≡ some r
    → has_prefix r dots ≡ false
    → (below : List Text) × (target ≡ root ++ below)
rel-below root target r h k e safe = elim (rel_parts-cases root target h) [
  | inl (below, split, _) ↦ (below, split)
  | inr (name, names, more, up) ↦ elim (Bool-cases (rooted root == rooted target)) [
    | inl same ↦ (
      [],
      rooted-injective root target h k ((text_iff (rooted root) (rooted target)).0 same)
          ∙ sym (append-nil root),
    )
    | inr other ↦
        absurd (ground (arith, rel-rooted root target h k, up_and_down-has_prefix name names more))
  ]
]

rel_parts-append : (root below : List Text) → rel_parts root (root ++ below) ≡ some below
unfolding rel_parts
rel_parts-append [] below = refl
rel_parts-append (part ∷ root) below = rw text_beq_refl (rel_parts-append root below)

-- The way from a clean root to names below it.
pub rel-names :
    (root : List Text) (name : Text) (names : List Text)
    → All IsName (root ++ name ∷ names)
    → All IsName root
    → rel (rooted root) (rooted (root ++ name ∷ names)) ≡ some (join_slash (name ∷ names))
rel-names root name names k h =
    rel-rooted root (root ++ name ∷ names) h k
    ∙ rw (differ, rel_parts-append root (name ∷ names)) refl
  where
    differ : (rooted root == rooted (root ++ name ∷ names)) ≡ false
    differ = elim (Bool-cases (rooted root == rooted (root ++ name ∷ names))) [
      | inl e ↦
          let same = rooted-injective root (root ++ name ∷ names) h k ((text_iff _ _).0 e) in
          absurd (omega (arith, ap length same, length-append root (name ∷ names)))
      | inr e ↦ e
    ]
