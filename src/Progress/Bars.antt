-- ===== src/Progress/Bars.antt =====
-- The bar of `FormatProgress` in internal/progress/progress.go.
use syncrules.Prelude.{
  ℕ, zero, suc, ◌+◌, ◌≤◌, ◌<◌, Text, nat_eq, ◌==◌, ◌≡◌, ◌⊎◌, inl, inr, refl, arith, length,
  count_if, ltb, if◌then◌else◌,
}
use syncrules.Progress.{bar, bar_loop}

-- How many bytes of the bar are filled.
abbrev pub filled_bytes : Text → ℕ
filled_bytes s = count_if (λ c. c == b'=') s

bar_loop-after :
    (filled i n : ℕ)
    → filled < i
    → (length (bar_loop filled i n) ≡ n) × (filled_bytes (bar_loop filled i n) ≡ 0)
unfolding bar_loop
bar_loop-after filled i zero h = (refl, refl)
bar_loop-after filled i (suc n) h = ground (arith, bar_loop-after filled (suc i) n (omega arith))

bar_loop-within :
    (filled i n : ℕ)
    → i ≤ filled
    → filled ≤ i + n
    → (length (bar_loop filled i n) ≡ n) × (i + filled_bytes (bar_loop filled i n) ≡ filled)
unfolding bar_loop
bar_loop-within filled i zero h k = omega arith
bar_loop-within filled i (suc n) h k = elim (lt-or-eq h) [
  | inl below ↦ ground (arith, bar_loop-within filled (suc i) n below (omega arith))
  | inr here ↦ ground (arith, bar_loop-after filled (suc i) n (omega arith))
]
  where
    lt-or-eq : i ≤ filled → (i < filled) ⊎ (i ≡ filled)
    lt-or-eq h = omega arith

-- The bar has the width, and as many bytes of it are filled as asked, at most all.
pub bar-width :
    (filled width : ℕ)
    → (length (bar filled width) ≡ width)
      × (filled_bytes (bar filled width) ≡ (if ltb width filled then width else filled))
unfolding bar
bar-width filled width =
    let (long, full) =
      bar_loop-within (if ltb width filled then width else filled) 0 width (omega arith)
        (ground arith) in
    (long, omega (arith, full))
