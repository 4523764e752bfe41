-- ===== src/Diff/Content.antt =====
-- What `Compare` of internal/core/diff/diff.go decides, without its order of tests.
use syncrules.Prelude.{text_facts, inl, inr, nat_eq, Option, none, some, ◌≡◌, ◌⊎◌, ◌↔◌, refl, arith}
use syncrules.Domain.{FileInfo, regular}
use syncrules.Diff.{
  DiffResult, files_identical, file_modified, file_only_in_source, file_only_in_target, compare,
}

-- Two regular files of one size that agree in their time or in their checksum. Two missing checksums
-- agree.
pub record SameContent (s t : FileInfo) : Type 0 where
  pub source_regular : s.type ≡ regular
  pub target_regular : t.type ≡ regular
  pub same_size : s.size ≡ t.size
  pub same_evidence : (s.mod_time ≡ t.mod_time) ⊎ (s.checksum ≡ t.checksum)

compare-eq-identical :
    (s t : FileInfo) → (compare (some s) (some t) ≡ files_identical) ↔ SameContent s t
unfolding compare
compare-eq-identical s t = (
  λ h. ground (arith, text_facts s.checksum t.checksum),
  λ h. ground (arith, text_facts s.checksum t.checksum),
)

compare_both_cases :
    (s t : FileInfo)
    → (compare (some s) (some t) ≡ files_identical) ⊎ (compare (some s) (some t) ≡ file_modified)
unfolding compare
compare_both_cases s t = ground arith

-- Of two existing entries `Compare` says "identical" exactly when both are regular files of one size,
-- with equal times or equal checksums, and "modified" otherwise.
pub compare-SameContent :
    (s t : FileInfo)
    → ((compare (some s) (some t) ≡ files_identical) ↔ SameContent s t)
      × ((compare (some s) (some t) ≡ file_modified) ↔ ¬ SameContent s t)
compare-SameContent s t = (
  compare-eq-identical s t,
  (
    λ h c. cc (h, (compare-eq-identical s t).1 c),
    λ h. elim (compare_both_cases s t) [
      | inl e ↦ absurd (h ((compare-eq-identical s t).0 e))
      | inr e ↦ e
    ],
  ),
)

abbrev pub mirror : DiffResult → DiffResult
mirror file_only_in_source = file_only_in_target
mirror file_only_in_target = file_only_in_source
mirror r = r

-- Swapping the two sides swaps the two "only in" results and changes no other.
pub compare-mirror : (s t : Option FileInfo) → compare t s ≡ mirror (compare s t)
unfolding compare
compare-mirror none none = refl
compare-mirror none (some t) = refl
compare-mirror (some s) none = refl
compare-mirror (some s) (some t) = ground (arith, text_facts s.checksum t.checksum)
