-- ===== src/Domain/Errors.antt =====
-- internal/domain/errors.go, and the errors that the other packages wrap with `fmt.Errorf`.
use syncrules.Prelude.{Text}

pub data Error : Type 0 where
  -- the sentinel errors of errors.go
  not_found already_exists permission_denied not_directory not_file version_conflict : Error
  quota_exceeded network_error timeout : Error
  sync_conflict invalid_rule circular_dependency sync_in_progress : Error
  config_not_found config_invalid endpoint_not_found transport_not_found : Error
  -- `ctx.Err()`
  context_done : Error
  -- any other error of an adapter, of the operating system or of a library, by its text
  other_error : Text → Error
  -- `fmt.Errorf("…: %w", err)`, by the text in front
  wrapped : Text → Error → Error

-- `errors.Is(err, target)` looks through the wrapping.
abbrev pub cause : Error → Error
cause (wrapped _ e) = cause e
cause e = e
