-- ===== src/PidFile/Decimal.antt =====
-- `fmt.Sprintf("%d")` and `strconv.Atoi`, as internal/daemon/pidfile.go uses them.
use syncrules.Prelude.{
  ℕ, zero, suc, ◌+◌, ◌-◌, ◌*◌, ◌/◌, ◌%◌, ◌^◌, ◌<◌, Text, nat_eq, Bool, true, Option, none, some, [],
  ◌∷◌, ◌++◌, ◌==◌, ◌&&◌, if◌then◌else◌, leb, ltb, nat_same_iff, trim_left, trim_right, trim_space,
  ◌≡◌, ◌≢◌, inl, inr, refl, ap, ◌∙◌, arith, Bool-cases,
}

-- The digits of `n` in front of `tail`, at most `fuel` of them.
digits : ℕ → ℕ → Text → Text
digits zero n tail = tail
digits (suc fuel) n tail =
    let more = digits fuel (n / 10) ((b'0' + n % 10) ∷ tail) in
    if n / 10 == 0 then (b'0' + n % 10) ∷ tail else more

-- `%d` of an int that is not negative; it has at most 19 digits.
unfoldable pub print_int : ℕ → Text
unfolding digits
print_int n = digits 20 n []

abbrev is_digit : ℕ → Bool
is_digit c = leb b'0' c && leb c b'9'

parse_digits : ℕ → Text → Option ℕ
parse_digits value [] = some value
parse_digits value (c ∷ s) =
    let rest = parse_digits (value * 10 + (c - b'0')) s in if is_digit c then rest else none

-- The digits behind a sign; there is one at least.
parse_unsigned : Text → Option ℕ
unfolding parse_digits
parse_unsigned [] = none
parse_unsigned (c ∷ s) = parse_digits 0 (c ∷ s)

in_range : Option ℕ → Option ℕ
in_range none = none
in_range (some n) = if ltb n (2 ^ 63) then some n else none

in_range_negative : Option ℕ → Option ℕ
in_range_negative none = none
in_range_negative (some n) = if leb n (2 ^ 63) then some ((2 ^ 64 - n) % 2 ^ 64) else none

-- `strconv.Atoi`: the bit pattern of the int, or `none` for its errors.
unfoldable pub parse_int : Text → Option ℕ
unfolding parse_unsigned in_range in_range_negative
parse_int [] = none
parse_int (c ∷ s) =
    if c == b'-'
    then in_range_negative (parse_unsigned s)
    else if c == b'+'
    then in_range (parse_unsigned s)
    else in_range (parse_unsigned (c ∷ s))

-- A digit that was printed is read.
parse_digits-digit :
    (value n : ℕ) (tail : Text)
    → parse_digits value ((b'0' + n % 10) ∷ tail) ≡ parse_digits (value * 10 + n % 10) tail
unfolding parse_digits
parse_digits-digit value n tail =
    let digit : is_digit (b'0' + n % 10) ≡ true = ground arith in
    let same : b'0' + n % 10 - b'0' ≡ n % 10 = omega arith in rw (digit, same) refl

parse_digits-digits :
    (fuel n : ℕ) (tail : Text)
    → n < 10 ^ fuel
    → parse_digits 0 (digits fuel n tail) ≡ parse_digits n tail
unfolding digits
parse_digits-digits zero n tail h = ap (λ m. parse_digits m tail) (omega arith)
parse_digits-digits (suc fuel) n tail h = elim (Bool-cases (n / 10 == 0)) [
  | inl last ↦
      let small = (nat_same_iff (n / 10) 0).0 last in
      rw (last, digits) (parse_digits-digit 0 n tail ∙ ap (λ m. parse_digits m tail) (omega arith))
  | inr more ↦
      rw (more, digits)
        (parse_digits-digits fuel (n / 10) ((b'0' + n % 10) ∷ tail) (omega arith)
          ∙ parse_digits-digit (n / 10) n tail
          ∙ ap (λ m. parse_digits m tail) (omega arith))
]

-- All bytes of the text are digits, and there is one at least.
AllDigits : Text → Type 0
AllDigits [] = Unit
AllDigits (c ∷ s) = (is_digit c ≡ true) × AllDigits s

digits-AllDigits : (fuel n : ℕ) (tail : Text) → AllDigits tail → AllDigits (digits fuel n tail)
unfolding digits AllDigits
digits-AllDigits zero n tail h = h
digits-AllDigits (suc fuel) n tail h =
    let digit : is_digit (b'0' + n % 10) ≡ true = ground arith in
    ground (arith, digits-AllDigits fuel (n / 10) ((b'0' + n % 10) ∷ tail) (digit, h))

digits-ne-nil : (fuel n : ℕ) (tail : Text) → tail ≢ [] → digits fuel n tail ≢ []
unfolding digits
digits-ne-nil zero n tail h = h
digits-ne-nil (suc fuel) n tail h =
    ground (arith, digits-ne-nil fuel (n / 10) ((b'0' + n % 10) ∷ tail) (λ e. cc))

-- Digits with a line end are trimmed to the digits.
trim_right-AllDigits : (s : Text) → AllDigits s → trim_right (s ++ 10 ∷ []) ≡ s
unfolding trim_right AllDigits
trim_right-AllDigits [] h = ground arith
trim_right-AllDigits (c ∷ []) h = ground arith
trim_right-AllDigits (c ∷ d ∷ s) h = rw (trim_right-AllDigits (d ∷ s) h.1) refl

trim_left-AllDigits : (s : Text) → AllDigits s → trim_left s ≡ s
unfolding trim_left AllDigits
trim_left-AllDigits [] h = refl
trim_left-AllDigits (c ∷ s) h = ground arith

parse_int-AllDigits : (s : Text) → AllDigits s → s ≢ [] → parse_int s ≡ in_range (parse_digits 0 s)
unfolding parse_int parse_unsigned AllDigits
parse_int-AllDigits [] h k = absurd (k refl)
parse_int-AllDigits (c ∷ s) h k = ground (arith, nat_same_iff c b'-', nat_same_iff c b'+')

in_range_of_lt : (n : ℕ) → n < 2 ^ 63 → in_range (some n) ≡ some n
unfolding in_range
in_range_of_lt n h = ground arith

digits-suc-ne-nil : (fuel n : ℕ) → digits (suc fuel) n [] ≢ []
unfolding digits
digits-suc-ne-nil fuel n =
    ground (arith, digits-ne-nil fuel (n / 10) ((b'0' + n % 10) ∷ []) (λ e. ground arith))

trim_space-AllDigits : (s : Text) → AllDigits s → trim_space (s ++ 10 ∷ []) ≡ s
unfolding trim_space
trim_space-AllDigits s h = ap trim_left (trim_right-AllDigits s h) ∙ trim_left-AllDigits s h

parse_int-digits :
    (fuel n : ℕ)
    → n < 10 ^ suc fuel
    → n < 2 ^ 63
    → parse_int (trim_space (digits (suc fuel) n [] ++ 10 ∷ [])) ≡ some n
unfolding parse_digits AllDigits
parse_int-digits fuel n h k =
    let s = digits (suc fuel) n [] in
    let all = digits-AllDigits (suc fuel) n [] tt in
    ap parse_int (trim_space-AllDigits s all)
    ∙ parse_int-AllDigits s all (digits-suc-ne-nil fuel n)
    ∙ ap in_range (parse_digits-digits (suc fuel) n [] h)
    ∙ in_range_of_lt n k

print_int-eq : (n : ℕ) → print_int n ≡ digits 20 n []
unfolding print_int
print_int-eq n = refl

-- Reading what `Write` prints, with its line end, gives the number back.
pub parse_int-print_int :
    (n : ℕ) → n < 2 ^ 63 → parse_int (trim_space (print_int n ++ 10 ∷ [])) ≡ some n
parse_int-print_int n h = rw (print_int-eq n) (parse_int-digits 19 n (omega arith) h)
