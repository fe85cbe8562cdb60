-- ===== src/Controllers/Errors.antt =====
-- How the controllers turn the errors of a statement into their own (`errors.Is(err,
-- sql.ErrNoRows)`, and services/controllers/postgres_errors.go). Any other error is passed on.
use news_feed_backend.Prelude.{Bool, true, false}
use news_feed_backend.Store.{Error, no_rows, unique_violation}

abbrev pub is_unique_violation : Error → Bool
is_unique_violation unique_violation = true
is_unique_violation _ = false

-- sql.ErrNoRows becomes `missing`.
abbrev pub when_missing : Error → Error → Error
when_missing missing no_rows = missing
when_missing missing e = e

-- A violation of a UNIQUE constraint becomes `taken`.
abbrev pub when_taken : Error → Error → Error
when_taken taken e = elim (is_unique_violation e) [ true ↦ taken | false ↦ e ]
