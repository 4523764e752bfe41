-- ===== src/Logger/Output/Owned.antt =====
-- internal/logger/slog_adapter.go: the writers that a logger closes.
use mathlib.Core.List.{append-nil}
use syncrules.Prelude.{
  not, ◌&&◌, none, some, Option, List, [], ◌∷◌, ◌++◌, ok, ◌≡◌, refl, ap, arith, Result-cases, inl,
  inr, if◌then◌else◌, sym, ◌∙◌,
}
use syncrules.Logger.Sanitizer.{SanitizeRule}
use syncrules.Logger.Output.{
  FileConfig, OutputConfig, Writer, standard, rotating, Config, LogSystem, Sinks, SlogLogger,
  can_close, is_standard, add_custom, add_stream, add_file, add_output, add_outputs, or_stdout,
  new_slog_logger, create_file_writer, Stream,
}

-- The writers that the logger is to close, in their order.
unfoldable pub owned : List Writer → List Writer
owned [] = []
owned (w ∷ ws) = if can_close w && not (is_standard w) then w ∷ owned ws else owned ws

owned-append : (ws vs : List Writer) → owned (ws ++ vs) ≡ owned ws ++ owned vs
unfolding owned
owned-append [] vs = refl
owned-append (w ∷ ws) vs = ground (arith, owned-append ws vs)

-- The writers to be closed are those that the logger owns.
abbrev Fits : Sinks → Type 0
Fits s = s.closeable ≡ owned s.writers

add_custom-Fits : (w : Writer) (s : Sinks) → Fits s → Fits (add_custom w s)
unfolding add_custom owned
add_custom-Fits w s h = ground (arith, owned-append s.writers (w ∷ []), append-nil s.closeable)

add_stream-Fits :
    (stream : Stream) (writer : Option Writer) (s : Sinks)
    → Fits s
    → Fits (add_stream stream writer s)
unfolding add_stream owned
add_stream-Fits stream (some w) s h = add_custom-Fits w s h
add_stream-Fits stream none s h = ground (
  arith,
  owned-append s.writers (standard stream ∷ []),
  append-nil s.closeable,
  append-nil (owned s.writers),
)

Fits-nil : Fits (record { writers = []; closeable = [] })
unfolding owned
Fits-nil = refl

module _ {W : Type 0} (system : LogSystem W) where
  add_file-Fits :
      (config : FileConfig) (s s1 : Sinks) (w : W)
      → Fits s
      → (add_file system config s w).1 ≡ ok s1
      → Fits s1
  unfolding add_file create_file_writer owned
  add_file-Fits config s s1 w h e = ground (arith, owned-append s.writers (rotating config ∷ []))

  add_output-Fits :
      (config : FileConfig) (output : OutputConfig) (s s1 : Sinks) (w : W)
      → Fits s
      → (add_output system config output s w).1 ≡ ok s1
      → Fits s1
  unfolding add_output
  add_output-Fits config output s s1 w h e = ground (
    arith,
    add_stream-Fits Stream.stdout output.writer s h,
    add_stream-Fits Stream.stderr output.writer s h,
    add_file-Fits config s s1 w h,
  )

  add_outputs-Fits :
      (config : FileConfig) (outputs : List OutputConfig) (s s1 : Sinks) (w : W)
      → Fits s
      → (add_outputs system config outputs s w).1 ≡ ok s1
      → Fits s1
  unfolding add_outputs
  add_outputs-Fits config [] s s1 w h e = ground arith
  add_outputs-Fits config (output ∷ outputs) s s1 w h e =
      let r = add_output system config output s w in
      elim (Result-cases r.1) [
        | inr (x, f) ↦ ground arith
        | inl (s2, f) ↦
            let step : add_outputs system config (output ∷ outputs) s w
                ≡ add_outputs system config outputs s2 r.0 =
              rw (add_outputs, f) refl in
            add_outputs-Fits config outputs s2 s1 r.0 (add_output-Fits config output s s2 w h f)
              (sym (ap (λ x. x.1) step) ∙ e)
      ]

  owned-or_stdout : (ws : List Writer) → owned (or_stdout system ws) ≡ owned ws
  unfolding owned
  owned-or_stdout [] = refl
  owned-or_stdout (w ∷ ws) = refl

  -- A logger that NewSlogLogger opens closes exactly those of its outputs that can be closed and are no
  -- stream of the process, in the order in which it writes to them.
  pub new_slog_logger-owned :
      (rules : List SanitizeRule) (config : Config) (w : W) (l : SlogLogger)
      → (new_slog_logger system rules config w).1 ≡ ok l
      → l.writers ≡ owned l.logger.outputs
  unfolding new_slog_logger
  new_slog_logger-owned rules config w l h =
      let empty : Sinks = record { writers = []; closeable = [] } in
      elim (Result-cases (add_outputs system config.file config.outputs empty w).1) [
        | inr (x, e) ↦ ground arith
        | inl (s, e) ↦
            let fits = add_outputs-Fits config.file config.outputs empty s w Fits-nil e in
            ground (arith, owned-or_stdout s.writers)
      ]
