-- ===== src/Logger.antt =====
-- internal/logger/types.go: levels and formats as ints, and their texts.
pub mod Sanitizer
pub mod Texts
pub mod Output
pub mod Global
use syncrules.Prelude.{ℕ, Text, text_eq, nat_eq, codes, ◌==◌, ◌||◌, if◌then◌else◌, to_lower}

-- `Level`, an int; the four constants.
abbrev pub level_debug : ℕ
level_debug = 0

abbrev pub level_info : ℕ
level_info = 1

abbrev pub level_warn : ℕ
level_warn = 2

abbrev pub level_error : ℕ
level_error = 3

-- `Level.String`
unfoldable pub level_string : ℕ → Text
level_string l =
    if l == level_debug
    then codes "debug"
    else if l == level_info
    then codes "info"
    else if l == level_warn
    then codes "warn"
    else if l == level_error
    then codes "error"
    else codes "unknown"

-- The switch of `ParseLevel` over the text in small letters.
level_of : Text → ℕ
level_of s =
    if s == codes "debug"
    then level_debug
    else if s == codes "info"
    then level_info
    else if s == codes "warn" || s == codes "warning"
    then level_warn
    else if s == codes "error"
    then level_error
    else level_info

-- `ParseLevel`
unfoldable pub parse_level : Text → ℕ
unfolding level_of
parse_level s = level_of (to_lower s)

-- `Format`, an int; the two constants.
abbrev pub format_text : ℕ
format_text = 0

abbrev pub format_json : ℕ
format_json = 1

-- `Format.String`
unfoldable pub format_string : ℕ → Text
format_string f =
    if f == format_text
    then codes "text"
    else if f == format_json
    then codes "json"
    else codes "text"

-- The switch of `ParseFormat`.
format_of : Text → ℕ
format_of s =
    if s == codes "json"
    then format_json
    else if s == codes "text"
    then format_text
    else format_text

-- `ParseFormat`
unfoldable pub parse_format : Text → ℕ
unfolding format_of
parse_format s = format_of (to_lower s)
