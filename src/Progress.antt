-- ===== src/Progress.antt =====
-- internal/progress/progress.go. The callback gets the updates that the methods return here.
pub mod Transfers
pub mod Bars
use syncrules.Prelude.{
  ℕ, zero, suc, ◌+◌, ◌-◌, ◌*◌, ◌^◌, ◌%◌, Text, nat_eq, codes, Bool, true, false, Option, none, some,
  List, [], ◌∷◌, ◌++◌, ◌==◌, ◌&&◌, ◌||◌, not, if◌then◌else◌, ltb, leb, length,
}
use syncrules.Domain.{Error}
use syncrules.Adapter.{Content}

pub data UpdateType : Type 0 where
  start progress complete failed overall : UpdateType

-- `Update`. `speed` is the pair of the bytes and the time that `BytesPerSecond` divides, where that is
-- set; an int or int64 is its bit pattern.
pub record Update : Type 0 where
  pub type : UpdateType
  pub current_file : Text
  pub current_bytes : ℕ
  pub current_total : ℕ
  pub files_completed : ℕ
  pub files_total : ℕ
  pub bytes_completed : ℕ
  pub bytes_total : ℕ
  pub speed : Option (ℕ × ℕ)
  pub error : Option Error

-- `CallbackReporter`, without its callback.
pub record CallbackReporter : Type 0 where
  pub current_file : Text
  pub current_total : ℕ
  pub current_bytes : ℕ
  pub files_total : ℕ
  pub bytes_total : ℕ
  pub files_completed : ℕ
  pub bytes_completed : ℕ
  pub start_time : ℕ

abbrev pub wrap : ℕ → ℕ
wrap n = n % 2 ^ 64

-- The fields that every update copies from the reporter.
abbrev update_of : UpdateType → CallbackReporter → Update
update_of type r = record {
  type = type;
  current_file = r.current_file;
  current_bytes = 0;
  current_total = 0;
  files_completed = r.files_completed;
  files_total = r.files_total;
  bytes_completed = r.bytes_completed;
  bytes_total = r.bytes_total;
  speed = none;
  error = none;
}

-- `SetTotal`
abbrev pub set_total : ℕ → ℕ → CallbackReporter → CallbackReporter
set_total total_files total_bytes r = record r {
  files_total = total_files;
  bytes_total = total_bytes;
}

-- `Start`, at a time.
abbrev pub start_file : ℕ → Text → ℕ → CallbackReporter → CallbackReporter × Update
start_file now path total_bytes r =
    let r1 = record r {
      current_file = path;
      current_total = total_bytes;
      current_bytes = 0;
      start_time = now;
    } in
    (r1, record (update_of start r1) { current_total = total_bytes })

-- `Update`, at a time; `elapsed > 0`.
abbrev pub update : ℕ → ℕ → CallbackReporter → CallbackReporter × Update
update now bytes r =
    let r1 = record r { current_bytes = bytes } in
    (
      r1,
      record (update_of progress r1) {
        current_bytes = bytes;
        current_total = r.current_total;
        bytes_completed = wrap (r.bytes_completed + bytes);
        speed = if ltb r.start_time now then some (bytes, now - r.start_time) else none;
      },
    )

-- `Complete`
abbrev pub complete_file : CallbackReporter → CallbackReporter × Update
complete_file r =
    let r1 = record r {
      files_completed = wrap (r.files_completed + 1);
      bytes_completed = wrap (r.bytes_completed + r.current_total);
    } in
    (
      r1,
      record (update_of complete r1) {
        current_bytes = r.current_total;
        current_total = r.current_total;
      },
    )

-- `Error`
abbrev pub report_error : Error → CallbackReporter → CallbackReporter × Update
report_error e r = (r, record (update_of failed r) { error = some e })

-- `OverallProgress`, which stores nothing.
abbrev pub overall_progress : ℕ → ℕ → CallbackReporter → CallbackReporter × Update
overall_progress files bytes r = (
  r,
  record (update_of overall r) {
    current_file = [];
    files_completed = files;
    bytes_completed = bytes;
  },
)

-- `ProgressReader.Read` over the reads of a content: what is reported for each read, from the number
-- of bytes that are transferred. `ProgressWriter.Write` reports in the same way what is written.
unfoldable pub read_reports : ℕ → List Text → List ℕ
read_reports transferred [] = []
read_reports transferred (chunk ∷ chunks) =
    let total = wrap (transferred + length chunk) in
    let rest = read_reports transferred chunks in
    let more = read_reports total chunks in if ltb 0 (length chunk) then total ∷ more else rest

-- The loop of `FormatProgress` over the bar, from `i` on for `n` more bytes. `filled` is not negative.
bar_loop : ℕ → ℕ → ℕ → Text
bar_loop filled i zero = []
bar_loop filled i (suc n) =
    (if ltb i filled then b'=' else if i == filled then b'>' else 32) ∷ bar_loop filled (suc i) n

-- The bar of a width, of which `int(percent * float64(width))` is filled.
unfoldable pub bar : ℕ → ℕ → Text
unfolding bar_loop
bar filled width = bar_loop (if ltb width filled then width else filled) 0 width

-- `%.1f` of a quotient, `%d` of an int64, and the arithmetic on floats are parameters.
module _ (fixed1 : ℕ → ℕ → Text) (print_int : ℕ → Text) where
  -- `bytes >= size`, of the bit pattern of an int64.
  abbrev at_least : ℕ → ℕ → Bool
  at_least bytes size = leb size bytes && ltb bytes (2 ^ 63)

  -- `FormatBytes`
  unfoldable pub format_bytes : ℕ → Text
  format_bytes bytes =
      if at_least bytes (1024 * 1024 * 1024)
      then fixed1 bytes (1024 * 1024 * 1024) ++ codes " GB"
      else if at_least bytes (1024 * 1024)
      then fixed1 bytes (1024 * 1024) ++ codes " MB"
      else if at_least bytes 1024
      then fixed1 bytes 1024 ++ codes " KB"
      else print_int bytes ++ codes " B"

  -- `FormatSpeed`, of the speed as an int64.
  unfoldable pub format_speed : ℕ → Text
  unfolding format_bytes
  format_speed speed = format_bytes speed ++ codes "/s"

  -- `FormatProgress`, by the filled part and the text of the percentage.
  unfoldable pub format_progress : (ℕ → ℕ → ℕ → ℕ) → (ℕ → ℕ → Text) → ℕ → ℕ → ℕ → Text
  unfolding bar
  format_progress filled percent current total width =
      if total == 0
      then []
      else codes "["
        ++ bar (filled current total width) width
        ++ codes "] "
        ++ percent current total
        ++ codes "%"
