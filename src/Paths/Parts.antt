-- ===== src/Paths/Parts.antt =====
-- The parts of a path, split and joined, and the parts that a clean path has.
use mathlib.Core.List.{append_assoc, reverse, reverse-cons}
use syncrules.Prelude.{
  ℕ, Text, text_eq, text_iff, nat_eq, Bool, true, List, [], ◌∷◌, ◌++◌, ◌==◌, ◌≡◌, ◌≢◌, refl, inl,
  inr, ap, sym, ◌∙◌, arith, Bool-cases, All, All-append,
}
use syncrules.Paths.{
  slash, dot, dots, grow, split_slash, join_slash, back_up, push_part, clean_parts,
}

-- The parts of a path are never an empty list.
pub split_slash-cons :
    (s : Text) → (part : Text) × (parts : List Text) × (split_slash s ≡ part ∷ parts)
unfolding split_slash
split_slash-cons [] = ([], [], refl)
split_slash-cons (c ∷ s) =
    let (part, parts, e) = split_slash-cons s in
    elim (Bool-cases (c == slash)) [
      | inl h ↦ ([], split_slash s, rw h)
      | inr h ↦ (c ∷ part, parts, rw (h, e))
    ]

grow-append :
    (c : ℕ) (s : Text) (ys : List Text)
    → grow c (split_slash s ++ ys) ≡ grow c (split_slash s) ++ ys
grow-append c s ys = let (part, parts, e) = split_slash-cons s in rw e

pub split_slash-append :
    (p q : Text) → split_slash (p ++ slash ∷ q) ≡ split_slash p ++ split_slash q
unfolding split_slash
split_slash-append [] q = ground arith
split_slash-append (c ∷ p) q =
    ground (arith, split_slash-append p q, grow-append c p (split_slash q))

-- The parts that a path can have: no slash in them, and no name that means something else.
abbrev pub NoSlash : Text → Type 0
NoSlash [] = Unit
NoSlash (c ∷ s) = (c ≢ slash) × NoSlash s

abbrev pub IsName : Text → Type 0
IsName part = (part ≢ []) × (part ≢ dot) × (part ≢ dots) × NoSlash part

pub split_slash-NoSlash : (s : Text) → All NoSlash (split_slash s)
unfolding split_slash
split_slash-NoSlash [] = (tt, tt)
split_slash-NoSlash (c ∷ s) =
    let (part, parts, e) = split_slash-cons s in
    let rest = split_slash-NoSlash s in ground (arith, e, rest)

split_slash_of_NoSlash : (s : Text) → NoSlash s → split_slash s ≡ s ∷ []
unfolding split_slash
split_slash_of_NoSlash [] h = refl
split_slash_of_NoSlash (c ∷ s) h = ground (arith, split_slash_of_NoSlash s h.1)

pub split_slash-join_slash :
    (part : Text) (parts : List Text)
    → All NoSlash (part ∷ parts)
    → split_slash (join_slash (part ∷ parts)) ≡ part ∷ parts
unfolding join_slash
split_slash-join_slash part [] h = split_slash_of_NoSlash part h.0
split_slash-join_slash part (next ∷ parts) h =
    split_slash-append part (join_slash (next ∷ parts))
    ∙ rw (split_slash_of_NoSlash part h.0, split_slash-join_slash next parts h.1) refl

pub push_part_of_IsName :
    (rooted : Bool) (stack : List Text) (part : Text)
    → IsName part
    → push_part rooted stack part ≡ part ∷ stack
unfolding push_part
push_part_of_IsName rooted stack part h =
    ground (arith, text_iff part [], text_iff part dot, text_iff part dots)

-- Names are pushed one after the other.
pub clean_parts_of_names :
    (rooted : Bool) (stack parts : List Text)
    → All IsName parts
    → clean_parts rooted stack parts ≡ reverse parts ++ stack
unfolding clean_parts
clean_parts_of_names rooted stack [] h = refl
clean_parts_of_names rooted stack (part ∷ parts) h =
    ap (λ s. clean_parts rooted s parts) (push_part_of_IsName rooted stack part h.0)
    ∙ clean_parts_of_names rooted (part ∷ stack) parts h.1
    ∙ sym (append_assoc (reverse parts) (part ∷ []) stack)
    ∙ ap (λ s. s ++ stack) (sym (reverse-cons part parts))

pub clean_parts-append :
    (rooted : Bool) (stack front back : List Text)
    → clean_parts rooted stack (front ++ back)
      ≡ clean_parts rooted (clean_parts rooted stack front) back
unfolding clean_parts
clean_parts-append rooted stack [] back = refl
clean_parts-append rooted stack (part ∷ front) back =
    clean_parts-append rooted (push_part rooted stack part) front back

-- The stack of a rooted path holds names only.
push_part-IsName :
    (stack : List Text) (part : Text)
    → All IsName stack
    → NoSlash part
    → All IsName (push_part true stack part)
unfolding push_part back_up
push_part-IsName [] part h n =
    ground (arith, text_iff part [], text_iff part dot, text_iff part dots)
push_part-IsName (top ∷ stack) part h n =
    ground (arith, text_iff part [], text_iff part dot, text_iff part dots, text_iff top dots)

pub clean_parts-IsName :
    (stack parts : List Text)
    → All IsName stack
    → All NoSlash parts
    → All IsName (clean_parts true stack parts)
unfolding clean_parts
clean_parts-IsName stack [] h n = h
clean_parts-IsName stack (part ∷ parts) h n =
    clean_parts-IsName (push_part true stack part) parts (push_part-IsName stack part h n.0) n.1

pub All-reverse : (P : Text → Type 0) (parts : List Text) → All P parts → All P (reverse parts)
All-reverse P [] h = tt
All-reverse P (part ∷ parts) h =
    rw reverse-cons (All-append P (reverse parts) (part ∷ []) (All-reverse P parts h.1) (h.0, tt))
