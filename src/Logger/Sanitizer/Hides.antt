-- ===== src/Logger/Sanitizer/Hides.antt =====
-- What a log shows of the values that `SanitizeArgs` of internal/logger/sanitizer.go masks.
use syncrules.Prelude.{
  ℕ, ◌≤◌, ◌<◌, Text, codes, true, List, [], ◌∷◌, ◌++◌, ◌≡◌, ◌⊎◌, inl, inr, refl, ap, sym, ◌∙◌,
  arith, length, length-append,
}
use syncrules.Logger.Sanitizer.{
  Arg, text, error, is_sensitive_key, byte_string, last_byte, mask_value, mask_arg, mask_pair,
  sanitize_args,
}

-- Two values that look alike when they are masked: both are empty, both have one or two bytes; or three
-- to eight and the same first one; or more, and the same first and last one.
unfoldable pub Alike : Text → Text → Type 0
Alike v v' =
    ((length v ≤ 2) × (length v' ≤ 2))
    ⊎ ((c : ℕ) × (s s' : Text) × (v ≡ c ∷ s)
        × (v' ≡ c ∷ s')
        × (((2 ≤ length s) × (length s ≤ 7) × (2 ≤ length s') × (length s' ≤ 7))
            ⊎ ((7 < length s) × (7 < length s') × (last_byte c s ≡ last_byte c s'))))

mask_value-short : (v : Text) → length v ≤ 2 → mask_value v ≡ codes "***"
unfolding mask_value
mask_value-short [] h = refl
mask_value-short (c ∷ s) h = ground arith

mask_value-middle :
    (c : ℕ) (s : Text)
    → 2 ≤ length s
    → length s ≤ 7
    → mask_value (c ∷ s) ≡ byte_string c ++ codes "***"
unfolding mask_value
mask_value-middle c s h k = ground arith

mask_value-long :
    (c : ℕ) (s : Text)
    → 7 < length s
    → mask_value (c ∷ s) ≡ byte_string c ++ codes "***" ++ byte_string (last_byte c s)
unfolding mask_value
mask_value-long c s h = ground arith

mask_value-Alike : (v v' : Text) → Alike v v' → mask_value v ≡ mask_value v'
unfolding Alike
mask_value-Alike v v' (inl (h, k)) = mask_value-short v h ∙ sym (mask_value-short v' k)
mask_value-Alike v v' (inr (c, s, s', e, e', inl (h, k, h', k'))) =
    ap mask_value e
    ∙ mask_value-middle c s h k
    ∙ sym (ap mask_value e' ∙ mask_value-middle c s' h' k')
mask_value-Alike v v' (inr (c, s, s', e, e', inr (h, h', l))) =
    ap mask_value e
    ∙ mask_value-long c s h
    ∙ ap (λ b. byte_string c ++ codes "***" ++ byte_string b) l
    ∙ sym (ap mask_value e' ∙ mask_value-long c s' h')

mask_pair-secret :
    (k v : Text) (value : Arg)
    → is_sensitive_key k ≡ true
    → (value ≡ text v) ⊎ (value ≡ error v)
    → mask_pair (text k) value ≡ text (mask_value v)
unfolding mask_pair mask_arg
mask_pair-secret k v value h (inl e) = rw (e, h) refl
mask_pair-secret k v value h (inr e) = rw (e, h) refl

-- Two calls that differ only in what their secrets are, where these look alike.
unfoldable pub SameButSecrets : List Arg → List Arg → Type 0
unfolding Alike
SameButSecrets [] [] = Unit
SameButSecrets (arg ∷ []) (arg' ∷ []) = arg ≡ arg'
SameButSecrets (key ∷ value ∷ args) (key' ∷ value' ∷ args') =
    (key ≡ key')
    × ((value ≡ value')
        ⊎ ((k v v' : Text) × (key ≡ text k)
            × (is_sensitive_key k ≡ true)
            × ((value ≡ text v) ⊎ (value ≡ error v))
            × ((value' ≡ text v') ⊎ (value' ≡ error v'))
            × Alike v v'))
    × SameButSecrets args args'
SameButSecrets _ _ = ⊥

-- A log does not tell such calls apart.
pub sanitize_args-SameButSecrets :
    (args args' : List Arg) → SameButSecrets args args' → sanitize_args args ≡ sanitize_args args'
unfolding SameButSecrets sanitize_args
sanitize_args-SameButSecrets [] [] h = refl
sanitize_args-SameButSecrets (arg ∷ []) (arg' ∷ []) h = ap (λ a. a ∷ []) h
sanitize_args-SameButSecrets (key ∷ value ∷ args) (key' ∷ value' ∷ args') (k, v, h) =
    rw (sym k, pair v, sanitize_args-SameButSecrets args args' h) refl
  where
    pair :
        (value ≡ value')
          ⊎ ((k v v' : Text) × (key ≡ text k)
              × (is_sensitive_key k ≡ true)
              × ((value ≡ text v) ⊎ (value ≡ error v))
              × ((value' ≡ text v') ⊎ (value' ≡ error v'))
              × Alike v v')
        → mask_pair key value ≡ mask_pair key value'
    pair (inl e) = ap (mask_pair key) e
    pair (inr (k, v, v', at, secret, e, e', alike)) =
        ap (λ a. mask_pair a value) at
        ∙ mask_pair-secret k v value secret e
        ∙ ap text (mask_value-Alike v v' alike)
        ∙ sym (ap (λ a. mask_pair a value') at ∙ mask_pair-secret k v' value' secret e')
sanitize_args-SameButSecrets [] (_ ∷ _) h = absurd h
sanitize_args-SameButSecrets (_ ∷ []) [] h = absurd h
sanitize_args-SameButSecrets (_ ∷ []) (_ ∷ _ ∷ _) h = absurd h
sanitize_args-SameButSecrets (_ ∷ _ ∷ _) [] h = absurd h
sanitize_args-SameButSecrets (_ ∷ _ ∷ _) (_ ∷ []) h = absurd h

byte_string-short : (b : ℕ) → length (byte_string b) ≤ 2
unfolding byte_string
byte_string-short b = ground arith

short-middle-or-long :
    (s : Text) → (length s ≤ 1) ⊎ (((2 ≤ length s) × (length s ≤ 7)) ⊎ (7 < length s))
short-middle-or-long s = omega arith

-- A masked value has at most seven bytes.
pub length-mask_value-le : (v : Text) → length (mask_value v) ≤ 7
length-mask_value-le [] = rw (mask_value-short [] (omega arith)) (omega arith)
length-mask_value-le (c ∷ s) = elim (short-middle-or-long s) [
  | inl h ↦ rw (mask_value-short (c ∷ s) (omega arith)) (omega arith)
  | inr (inl (h, k)) ↦
      rw (mask_value-middle c s h k)
        (omega (arith, length-append (byte_string c) (codes "***"), byte_string-short c))
  | inr (inr h) ↦ rw (mask_value-long c s h) (
      omega (
        arith,
        length-append (byte_string c ++ codes "***") (byte_string (last_byte c s)),
        length-append (byte_string c) (codes "***"),
        byte_string-short c,
        byte_string-short (last_byte c s),
      ))
]
