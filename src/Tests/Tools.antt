-- ===== src/Tests/Tools.antt =====
-- Instances of checksums, the PID file, the sanitizer and the reporters.
use syncrules.Prelude.{
  ◌+◌, Text, codes, text_beq, text_eq, nat_eq, Bool, true, false, Option, none, some, List, [], ◌∷◌,
  ◌++◌, ◌&&◌, ok, err, ◌≡◌, ◌≢◌, inl, inr, if◌then◌else◌, refl, Result, arith, length, ltb,
  to_lower, contains, has_prefix,
}
use syncrules.Domain.{other_error}
use syncrules.Adapter.{Content, concat, joined}
use syncrules.Checksum.{Options, is_supported, md5, returns, calculate}
use syncrules.Checksum.Sizes.{calculate-Verdict}
use syncrules.PidFile.{FileError, missing, PidSystem, read, write_pid, write}
use syncrules.PidFile.Decimal.{print_int}
use syncrules.PidFile.Exclusive.{CanBeSignalled, write-Exclusive}
use syncrules.Logger.{level_string, parse_level}
use syncrules.Logger.Texts.{parse_level-level_string}
use syncrules.Logger.Sanitizer.{Arg, text, is_sensitive_key}
use syncrules.Logger.Sanitizer.Hides.{Alike, SameButSecrets}
use syncrules.Progress.{read_reports}
use syncrules.Progress.Transfers.{Rising, final, read_reports-Rising}

-- The hash of a text is the text.
abbrev plain : Text → Text → Text
plain algo s = s

abbrev at_most_four : Options
at_most_four = record { max_size = 4; buffer_size = 2 }

abbrev five_bytes : Content
five_bytes = record { chunks = codes "ab" ∷ codes "cd" ∷ codes "e" ∷ []; failure = none }

md5-is_supported : is_supported md5 ≡ true
unfolding is_supported text_beq
md5-is_supported = refl

calculate-Verdict_example :
    calculate plain (λ n. false) at_most_four five_bytes md5
    ≡ returns (
        if ltb 0 4 && ltb 4 (length (joined five_bytes))
        then err (other_error (codes "file size exceeds maximum"))
        else ok (plain md5 (joined five_bytes)))
calculate-Verdict_example =
    calculate-Verdict plain (λ n. false) (λ n. refl) at_most_four five_bytes md5 md5-is_supported
      (omega arith) (omega arith) refl (omega arith)

-- A system that is the content of the file; all processes run.
abbrev content_of : Option Text → Result FileError Text
content_of none = err missing
content_of (some s) = ok s

abbrev is_there : Option Text → Bool
is_there none = false
is_there (some s) = true

abbrev system : PidSystem (Option Text)
system = record {
  exists = is_there;
  read_file = content_of;
  write_file = λ w s. (some s, none);
  remove = λ w. (none, none);
  find_process = λ w pid. none;
  signal_zero = λ w pid. none;
  terminate = λ w pid. (w, none);
}

wrote : write system 4711 none ≡ (some (print_int 4711 ++ 10 ∷ []), none)
unfolding write write_pid
wrote = refl

write-Exclusive_example :
    (read system (some (print_int 4711 ++ 10 ∷ [])) ≡ ok 4711)
    × (CanBeSignalled system (some (print_int 4711 ++ 10 ∷ [])) 4711
        → ((write system 12 (some (print_int 4711 ++ 10 ∷ []))).0
            ≡ some (print_int 4711 ++ 10 ∷ []))
          × ((write system 12 (some (print_int 4711 ++ 10 ∷ []))).1 ≢ none))
write-Exclusive_example =
    write-Exclusive system (λ w s h. (refl, refl)) 4711 12 none (some (print_int 4711 ++ 10 ∷ []))
      (omega arith) wrote

parse_level-level_string_example : parse_level (codes "WARN") ≡ 2
parse_level-level_string_example =
    parse_level-level_string 2 (codes "WARN") (omega arith) (unfold to_lower level_string in refl)

abbrev pub first_call : List Arg
first_call =
    text (codes "user") ∷ text (codes "kim") ∷ text (codes "password") ∷ text (codes "hunter") ∷ []

abbrev pub second_call : List Arg
second_call =
    text (codes "user") ∷ text (codes "kim") ∷ text (codes "password") ∷ text (codes "hello") ∷ []

password : is_sensitive_key (codes "password") ≡ true
unfolding is_sensitive_key to_lower contains has_prefix
password = refl

pub alike_calls : SameButSecrets first_call second_call
unfolding SameButSecrets Alike
alike_calls = (
  refl,
  inl refl,
  (
    refl,
    inr (
      codes "password",
      codes "hunter",
      codes "hello",
      refl,
      password,
      inl refl,
      inl refl,
      inr (
        b'h',
        codes "unter",
        codes "ello",
        refl,
        refl,
        inl (omega arith, omega arith, omega arith, omega arith),
      ),
    ),
    tt,
  ),
)

read_reports-Rising_example :
    Rising 0 (read_reports 0 five_bytes.chunks)
    × (final 0 (read_reports 0 five_bytes.chunks) ≡ 0 + length (concat five_bytes.chunks))
read_reports-Rising_example = read_reports-Rising 0 five_bytes.chunks (omega arith)
