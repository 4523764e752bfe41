-- ===== src/Logger/Sanitizer/Rules.antt =====
-- The default rules of internal/logger/sanitizer.go.
use syncrules.Prelude.{
  ℕ, zero, suc, ◌+◌, ◌-◌, Text, nat_eq, codes, Bool, not, none, some, List, [], ◌∷◌, ◌++◌, ◌==◌,
  ◌&&◌, ◌||◌, leb, if◌then◌else◌, lower,
}
use syncrules.Logger.Sanitizer.{SanitizeRule}
use syncrules.Logger.Sanitizer.Patterns.{Piece, one_of, run, replace_all_string}

-- `(?i)` before a letter or another byte: `s` also matches `ſ`, and `k` the sign of the kelvin.
abbrev pub folded : ℕ → List Text
folded c =
    if c == b's'
    then (b's' ∷ []) ∷ (b'S' ∷ []) ∷ (197 ∷ 191 ∷ []) ∷ []
    else if c == b'k'
    then (b'k' ∷ []) ∷ (b'K' ∷ []) ∷ (226 ∷ 132 ∷ 170 ∷ []) ∷ []
    else if leb b'a' c && leb c b'z'
    then (c ∷ []) ∷ ((c - 32) ∷ []) ∷ []
    else (c ∷ []) ∷ []

abbrev pub folds : Text → List Piece
folds [] = []
folds (c ∷ s) = one_of (folded (lower c)) ∷ folds s

-- `[A-Z]` where case is passed over: the first `n` letters.
abbrev letters : ℕ → List Text
letters zero = []
letters (suc n) = folded (97 + n) ++ letters n

-- `\s` and `\S`
abbrev pub is_blank : ℕ → Bool
is_blank c = c == 9 || c == 10 || c == 12 || c == 13 || c == 32

abbrev pub is_solid : ℕ → Bool
is_solid c = not (is_blank c)

abbrev backslash : ℕ
backslash = 92

-- `[^c]+`
abbrev others : ℕ → Piece
others c = run (λ d. not (d == c)) 1 none

-- `[a-zA-Z0-9._%+-]`
abbrev is_mail : ℕ → Bool
is_mail c =
    (leb b'a' c && leb c b'z')
    || (leb b'A' c && leb c b'Z')
    || (leb b'0' c && leb c b'9')
    || c == b'.'
    || c == b'_'
    || c == b'%'
    || c == b'+'
    || c == b'-'

-- `(?i)key=\S+`
abbrev pub assigned : List Piece → List Piece
assigned key = key ++ one_of (codes "=" ∷ []) ∷ run is_solid 1 none ∷ []

abbrev users : List Piece
users = folds (backslash ∷ codes "Users" ++ backslash ∷ [])

abbrev masked_users : Text
masked_users = backslash ∷ codes "Users" ++ backslash ∷ codes "***"

-- A replacement in which no group of the pattern occurs.
abbrev pub fixed : List Piece → Text → SanitizeRule
fixed pieces text = replace_all_string pieces (λ _. text)

-- `$1***@` where the first piece is the group.
abbrev first_group : List Text → Text
first_group [] = codes "***@"
first_group (part ∷ _) = part ++ codes "***@"

unfoldable pub password_rule : SanitizeRule
unfolding replace_all_string
password_rule = fixed (assigned (folds (codes "password"))) (codes "password=***")

abbrev pub other_rules : List SanitizeRule
other_rules =
    fixed (assigned (folds (codes "passwd"))) (codes "passwd=***")
    ∷ fixed (assigned (folds (codes "pwd"))) (codes "pwd=***")
    ∷ fixed (assigned (folds (codes "token"))) (codes "token=***")
    ∷ fixed (folds (codes "bearer") ++ run is_blank 1 none ∷ run is_solid 1 none ∷ [])
        (codes "bearer ***")
    ∷ fixed
        (assigned (
          folds (codes "api")
          ++ run (λ c. c == b'_' || c == b'-') 0 (some 1) ∷ folds (codes "key")))
        (codes "api_key=***")
    ∷ fixed (one_of (letters 26) ∷ folds (codes ":") ++ users ++ others backslash ∷ [])
        (codes "***:" ++ masked_users)
    ∷ fixed
        (folds (backslash ∷ backslash ∷ [])
          ++ others backslash ∷ folds (backslash ∷ [])
          ++ others backslash ∷ users
          ++ others backslash ∷ [])
        (backslash ∷ backslash ∷ codes "***" ++ backslash ∷ codes "***" ++ masked_users)
    ∷ fixed (one_of (codes "/home/" ∷ []) ∷ others b'/' ∷ []) (codes "/home/***")
    ∷ fixed (one_of (codes "/Users/" ∷ []) ∷ others b'/' ∷ []) (codes "/Users/***")
    ∷ replace_all_string
        (run is_mail 1 (some 3) ∷ run is_mail 0 none ∷ one_of (codes "@" ∷ []) ∷ []) first_group
    ∷ []

-- `defaultSanitizeRules`, which `NewSanitizer` takes.
abbrev pub default_rules : List SanitizeRule
default_rules = password_rule ∷ other_rules
