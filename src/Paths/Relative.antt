-- ===== src/Paths/Relative.antt =====
-- What a clean relative path can hold, and where `path.Join` puts it.
use mathlib.Core.List.{append-nil, reverse, reverse-cons, reverse-append, reverse-reverse}
use syncrules.Prelude.{
  nat_same_iff, Text, text_beq, text_iff, true, false, List, [], ◌∷◌, ◌++◌, ◌≡◌, ◌≢◌, ◌⊎◌, refl,
  inl, inr, ap, sym, ◌∙◌, arith, Bool-cases, ◌||◌, All, has_prefix,
}
use syncrules.Paths.{
  slash, dot, dots, split_slash, join_slash, is_abs, back_up, push_part, clean_parts, render,
  parts_of, clean, join,
}
use syncrules.Paths.Parts.{
  NoSlash, IsName, split_slash-NoSlash, split_slash-append, split_slash-join_slash,
  clean_parts_of_names, clean_parts-append, All-reverse,
}
use syncrules.Paths.Inside.{
  rooted, clean_parts-rooted, is_abs-rooted, clean_parts-join_slash, names-NoSlash, parts_of-IsName,
  dots-has_prefix,
}

-- Joined to an absolute root, a path is `/` and names.
pub join-rooted :
    (root : List Text) (r : Text)
    → (target : List Text) × (join (rooted root) r ≡ rooted target) × All IsName target
unfolding join render clean is_abs
join-rooted root [] = (parts_of (rooted root), refl, parts_of-IsName (rooted root) refl)
join-rooted root (c ∷ r) =
    let s = rooted root ++ slash ∷ c ∷ r in (parts_of s, refl, parts_of-IsName s refl)

-- The stack that an absolute path of names and what is joined to it leave.
clean_parts-below :
    (root : List Text) (r : Text)
    → All IsName root
    → clean_parts true [] (split_slash (rooted root ++ slash ∷ r))
      ≡ clean_parts true (reverse root) (split_slash r)
clean_parts-below root r h =
    ap (clean_parts true []) (split_slash-append (rooted root) r)
    ∙ clean_parts-append true [] (split_slash (rooted root)) (split_slash r)
    ∙ ap (λ s. clean_parts true s (split_slash r)) (clean_parts-rooted root h)

join-cons :
    (root : List Text) (r : Text)
    → r ≢ []
    → join (rooted root) r ≡ rooted (parts_of (rooted root ++ slash ∷ r))
unfolding join render clean is_abs
join-cons root [] h = absurd (h refl)
join-cons root (c ∷ r) h = refl

pub join_slash-ne-nil :
    (name : Text) (names : List Text) → IsName name → join_slash (name ∷ names) ≢ []
unfolding join_slash
join_slash-ne-nil name [] h = h.0
join_slash-ne-nil [] (_ ∷ _) h = absurd (h.0 refl)
join_slash-ne-nil (c ∷ name) (_ ∷ _) h = λ e. ground arith

parts_of-below :
    (root names : List Text)
    → All IsName root
    → All IsName names
    → parts_of (rooted root ++ slash ∷ join_slash names) ≡ root ++ names
unfolding parts_of render is_abs
parts_of-below root names h k =
    ap reverse (
      clean_parts-below root (join_slash names) h
      ∙ clean_parts-join_slash (reverse root) names k
      ∙ sym (reverse-append root names))
    ∙ reverse-reverse (root ++ names)

parts_of-dot : (root : List Text) → All IsName root → parts_of (rooted root ++ slash ∷ dot) ≡ root
unfolding parts_of render is_abs split_slash clean_parts push_part text_beq
parts_of-dot root h = ap reverse (clean_parts-below root dot h) ∙ reverse-reverse root

-- Names that are joined to a clean root come below it.
pub join-names :
    (root : List Text) (name : Text) (names : List Text)
    → All IsName root
    → All IsName (name ∷ names)
    → join (rooted root) (join_slash (name ∷ names)) ≡ rooted (root ++ name ∷ names)
join-names root name names h k =
    join-cons root (join_slash (name ∷ names)) (join_slash-ne-nil name names k.0)
    ∙ ap rooted (parts_of-below root (name ∷ names) h k)

pub join-dot : (root : List Text) → All IsName root → join (rooted root) dot ≡ rooted root
join-dot root h = join-cons root dot (λ e. ground arith) ∙ ap rooted (parts_of-dot root h)

-- From the top, names stand over `..`.
Shape : List Text → Type 0
Shape [] = Unit
Shape (part ∷ stack) = (IsName part × Shape stack) ⊎ ((part ≡ dots) × All (λ p. p ≡ dots) stack)

All-dots-Shape : (stack : List Text) → All (λ p. p ≡ dots) stack → Shape stack
unfolding Shape
All-dots-Shape [] h = tt
All-dots-Shape (part ∷ stack) h = inr h

push_part-Shape :
    (stack : List Text) (part : Text)
    → Shape stack
    → NoSlash part
    → Shape (push_part false stack part)
unfolding push_part back_up Shape
push_part-Shape [] part h n =
    ground (arith, text_iff part [], text_iff part dot, text_iff part dots)
push_part-Shape (top ∷ stack) part h n = ground (
  arith,
  text_iff part [],
  text_iff part dot,
  text_iff part dots,
  text_iff top dots,
  All-dots-Shape stack,
)

clean_parts-Shape :
    (stack parts : List Text)
    → Shape stack
    → All NoSlash parts
    → Shape (clean_parts false stack parts)
unfolding clean_parts
clean_parts-Shape stack [] h n = h
clean_parts-Shape stack (part ∷ parts) h n =
    clean_parts-Shape (push_part false stack part) parts (push_part-Shape stack part h n.0) n.1

reverse-dots :
    (part : Text) (stack : List Text)
    → part ≡ dots
    → All (λ p. p ≡ dots) stack
    → (rest : List Text) × (reverse (part ∷ stack) ≡ dots ∷ rest)
reverse-dots part [] e h = ([], ap (λ p. p ∷ []) e)
reverse-dots part (next ∷ stack) e h =
    let (rest, r) = reverse-dots next stack h.0 h.1 in
    (rest ++ part ∷ [], reverse-cons part (next ∷ stack) ∙ ap (λ s. s ++ part ∷ []) r)

Shape-cases :
    (stack : List Text)
    → Shape stack
    → All IsName stack ⊎ ((rest : List Text) × (reverse stack ≡ dots ∷ rest))
unfolding Shape
Shape-cases [] h = inl tt
Shape-cases (part ∷ stack) (inl (n, h)) = elim (Shape-cases stack h) [
  | inl names ↦ inl (n, names)
  | inr (rest, e) ↦ inr (rest ++ part ∷ [], reverse-cons part stack ∙ ap (λ s. s ++ part ∷ []) e)
]
Shape-cases (part ∷ stack) (inr (e, h)) = inr (reverse-dots part stack e h)

clean_of_abs : (p : Text) → is_abs p ≡ true → is_abs (clean p) ≡ true
unfolding clean
clean_of_abs p h = rw h (is_abs-rooted (parts_of p))

clean_of_rel : (p : Text) → is_abs p ≡ false → clean p ≡ render false (parts_of p)
unfolding clean
clean_of_rel p h = rw h refl

parts_of-cases :
    (p : Text)
    → is_abs p ≡ false
    → All IsName (parts_of p) ⊎ ((rest : List Text) × (parts_of p ≡ dots ∷ rest))
unfolding parts_of Shape
parts_of-cases p h = rw h (elim (Shape-cases parts shape) [
  | inl names ↦ inl (All-reverse IsName parts names)
  | inr climbs ↦ inr climbs
])
  where
    parts : List Text
    parts = clean_parts false [] (split_slash p)

    shape : Shape parts
    shape = clean_parts-Shape [] (split_slash p) tt (split_slash-NoSlash p)

render-climbs : (rest : List Text) → has_prefix (render false (dots ∷ rest)) dots ≡ true
unfolding render
render-climbs rest = dots-has_prefix rest

pub is_abs-join_slash :
    (name : Text) (names : List Text) → IsName name → is_abs (join_slash (name ∷ names)) ≡ false
unfolding is_abs join_slash
is_abs-join_slash [] names h = absurd (h.0 refl)
is_abs-join_slash (c ∷ name) [] h = ground (arith, nat_same_iff c slash)
is_abs-join_slash (c ∷ name) (_ ∷ _) h = ground (arith, nat_same_iff c slash)

parts_of-join_slash :
    (name : Text) (names : List Text)
    → All IsName (name ∷ names)
    → parts_of (join_slash (name ∷ names)) ≡ name ∷ names
unfolding parts_of
parts_of-join_slash name names h = ap reverse stack ∙ reverse-reverse (name ∷ names)
  where
    text : Text
    text = join_slash (name ∷ names)

    stack : clean_parts (is_abs text) [] (split_slash text) ≡ reverse (name ∷ names)
    stack =
        rw
          (
            is_abs-join_slash name names h.0,
            split_slash-join_slash name names (names-NoSlash (name ∷ names) h),
          )
          (clean_parts_of_names false [] (name ∷ names) h ∙ append-nil (reverse (name ∷ names)))

-- A clean relative path that does not begin with `..` has names only.
pub clean-names :
    (p : Text)
    → is_abs (clean p) ≡ false
    → has_prefix (clean p) dots ≡ false
    → (clean p ≡ render false (parts_of p)) × All IsName (parts_of p)
clean-names p a safe = elim (Bool-cases (is_abs p)) [
  | inl abs ↦ absurd (ground (arith, clean_of_abs p abs, a))
  | inr relative ↦ elim (parts_of-cases p relative) [
    | inl names ↦ (clean_of_rel p relative, names)
    | inr (rest, e) ↦ absurd (climbs rest (clean_of_rel p relative ∙ ap (render false) e))
  ]
]
  where
    climbs : (rest : List Text) → clean p ≡ render false (dots ∷ rest) → ⊥
    climbs rest e = ground (arith, render-climbs rest)

-- Joined names are clean.
pub clean-join_slash :
    (name : Text) (names : List Text)
    → All IsName (name ∷ names)
    → clean (join_slash (name ∷ names)) ≡ join_slash (name ∷ names)
unfolding render
clean-join_slash name names h =
    clean_of_rel (join_slash (name ∷ names)) (is_abs-join_slash name names h.0)
    ∙ ap (render false) (parts_of-join_slash name names h)

join_slash-ne-dot :
    (name : Text) (names : List Text) → All IsName (name ∷ names) → join_slash (name ∷ names) ≢ dot
unfolding split_slash
join_slash-ne-dot name names h e =
    let parts =
      sym (split_slash-join_slash name names (names-NoSlash (name ∷ names) h)) ∙ ap split_slash e in
    absurd (ground (arith, h.0))

-- Joined names are neither of the texts that the adapters take for their root.
pub join_slash-below :
    (name : Text) (names : List Text)
    → All IsName (name ∷ names)
    → (text_beq (join_slash (name ∷ names)) [] || text_beq (join_slash (name ∷ names)) dot) ≡ false
join_slash-below name names h = ground (
  arith,
  text_iff (join_slash (name ∷ names)) [],
  text_iff (join_slash (name ∷ names)) dot,
  join_slash-ne-nil name names h.0,
  join_slash-ne-dot name names h,
)

-- One name alone.
pub clean_of_IsName : (name : Text) → IsName name → clean name ≡ name
unfolding join_slash
clean_of_IsName name h = clean-join_slash name [] (h, tt)

pub is_abs_of_IsName : (name : Text) → IsName name → is_abs name ≡ false
unfolding join_slash
is_abs_of_IsName name h = is_abs-join_slash name [] h

pub below_of_IsName : (name : Text) → IsName name → (text_beq name [] || text_beq name dot) ≡ false
unfolding join_slash
below_of_IsName name h = join_slash-below name [] (h, tt)

pub join-nil : (name : Text) → name ≢ [] → join [] name ≡ clean name
unfolding join
join-nil [] h = absurd (h refl)
join-nil (c ∷ s) h = refl
