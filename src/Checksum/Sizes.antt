-- ===== src/Checksum/Sizes.antt =====
-- `Calculate` of internal/core/checksum/checksum.go by the size of the content.
use mathlib.Core.List.{append_assoc, append-nil}
use syncrules.Prelude.{
  ℕ, zero, suc, ◌+◌, ◌-◌, ◌^◌, ◌%◌, ◌≤◌, ◌<◌, Text, text_eq, text_iff, nat_eq, nat_same_iff, codes,
  Bool, true, false, none, List, [], ◌∷◌, ◌++◌, ◌&&◌, ◌⊎◌, inl, inr, if◌then◌else◌, length,
  length-append, ltb, Result, ok, err, ◌≡◌, ◌≢◌, refl, ap, sym, ◌∙◌, arith,
}
use syncrules.Domain.{Error, other_error}
use syncrules.Adapter.{Content, concat, joined}
use syncrules.Checksum.{
  Options, is_supported, is_positive, take, limit, limit_reads, limit_failure, limited, hash_loop,
  returns, stalls, panics, calculate,
}

take_of_length-le : (n : ℕ) (s : Text) → length s ≤ n → take n s ≡ s
unfolding take
take_of_length-le zero [] h = refl
take_of_length-le zero (c ∷ s) h = absurd (omega arith)
take_of_length-le (suc n) [] h = refl
take_of_length-le (suc n) (c ∷ s) h = ap (◌∷◌ c) (take_of_length-le n s (omega arith))

length-take : (n : ℕ) (s : Text) → n ≤ length s → length (take n s) ≡ n
unfolding take
length-take zero s h = refl
length-take (suc n) [] h = absurd (omega arith)
length-take (suc n) (c ∷ s) h = omega (arith, length-take n s (omega arith))

le-or-lt : (m n : ℕ) → (m ≤ n) ⊎ (n < m)
le-or-lt m n = omega arith

zero-or-positive : (n : ℕ) → (n ≡ 0) ⊎ (0 < n)
zero-or-positive n = omega arith

limit-suc :
    (max : ℕ) → 0 < max → max < 2 ^ 63 - 1 → (is_positive max ≡ true) × (limit max ≡ suc max)
limit-suc max p small =
    let same : (max + 1) % 2 ^ 64 ≡ suc max = omega arith in rw same (ground arith)

limit_reads-zero : (chunks : List Text) → limit_reads 0 chunks ≡ []
unfolding limit_reads
limit_reads-zero [] = refl
limit_reads-zero (chunk ∷ chunks) = refl

limit_failure-zero : (content : Content) → limit_failure 0 content ≡ none
unfolding limit_failure
limit_failure-zero content = ground arith

module _ (hash_hex : Text → Text → Text) (done : ℕ → Bool) (never : (n : ℕ) → done n ≡ false) where
  -- Without a limit all reads are hashed.
  hash_loop-unlimited :
      (algo : Text) (n total : ℕ) (written : Text) (chunks : List Text)
      → hash_loop hash_hex done algo 0 n total written chunks none
        ≡ ok (hash_hex algo (written ++ concat chunks))
  unfolding hash_loop
  hash_loop-unlimited algo n total written [] =
      rw never (ap (λ s. ok (hash_hex algo s)) (sym (append-nil written)))
  hash_loop-unlimited algo n total written (chunk ∷ chunks) =
      let ih =
        hash_loop-unlimited algo (suc n) ((total + length chunk) % 2 ^ 64) (written ++ chunk)
          chunks in
      ground (arith, never n, ih, append_assoc written chunk (concat chunks))

  -- What the limit makes of the whole content.
  abbrev Verdict : Text → ℕ → Text → Result Error Text
  Verdict algo max s =
      if ltb max (length s)
      then err (other_error (codes "file size exceeds maximum"))
      else ok (hash_hex algo s)

  hash_loop-end :
      (algo : Text) (max n total : ℕ) (written : Text)
      → hash_loop hash_hex done algo max n total written [] none ≡ ok (hash_hex algo written)
  unfolding hash_loop
  hash_loop-end algo max n total written = ground (arith, never n)

  verdict-within :
      (algo : Text) (max : ℕ) (s : Text)
      → length s ≤ max
      → ok (hash_hex algo s) ≡ Verdict algo max s
  verdict-within algo max s h = ground arith

  verdict-beyond :
      (algo : Text) (max : ℕ) (s : Text)
      → max < length s
      → err (other_error (codes "file size exceeds maximum")) ≡ Verdict algo max s
  verdict-beyond algo max s h = ground arith

  -- A read within the limit is written and the loop goes on; one beyond it ends the loop.
  hash_loop-within :
      (algo : Text) (max n total : ℕ) (written chunk : Text) (chunks : List Text)
      → max < 2 ^ 63 - 1
      → total + length chunk ≤ max
      → hash_loop hash_hex done algo max n total written (chunk ∷ chunks) none
        ≡ hash_loop hash_hex done algo max
            (suc n)
            (total + length chunk)
            (written ++ chunk)
            chunks
            none
  unfolding hash_loop
  hash_loop-within algo max n total written chunk chunks small within =
      let same : (total + length chunk) % 2 ^ 64 ≡ total + length chunk = omega arith in
      rw (same, never n) (ground arith)

  hash_loop-beyond :
      (algo : Text) (max n total : ℕ) (written chunk : Text) (chunks : List Text)
      → 0 < max
      → max < 2 ^ 63 - 1
      → total + length chunk ≡ max + 1
      → chunk ≢ []
      → hash_loop hash_hex done algo max n total written (chunk ∷ chunks) none
        ≡ err (other_error (codes "file size exceeds maximum"))
  unfolding hash_loop
  hash_loop-beyond algo max n total written chunk chunks p small beyond full =
      let same : (total + length chunk) % 2 ^ 64 ≡ max + 1 = omega arith in
      rw (same, never n) (ground (arith, text_iff chunk []))

  -- The loop with `k` more bytes that may be written.
  hash_loop-limited :
      (algo : Text) (max n k : ℕ) (written : Text) (chunks : List Text)
      → 0 < max
      → max < 2 ^ 63 - 1
      → length written + k ≡ max
      → hash_loop hash_hex done algo max n
          (length written)
          written
          (limit_reads (suc k) chunks)
          none
        ≡ Verdict algo max (written ++ concat chunks)
  unfolding limit_reads
  hash_loop-limited algo max n k written [] p small left = rw append-nil (
      hash_loop-end algo max n (length written) written
      ∙ verdict-within algo max written (omega arith))
  hash_loop-limited algo max n k written (chunk ∷ chunks) p small left =
      elim (le-or-lt (length chunk) k) [
        | inl within ↦
            let all : take (suc k) chunk ≡ chunk = take_of_length-le (suc k) chunk (omega arith) in
            let fewer : suc k - length chunk ≡ suc (k - length chunk) = omega arith in
            let grown = length-append written chunk in
            rw (all, fewer)
              (hash_loop-within algo max n (length written) written chunk
                  (limit_reads (suc (k - length chunk)) chunks) small (omega arith)
                ∙ ap
                    (λ t.
                      hash_loop hash_hex done algo max (suc n) t (written ++ chunk)
                        (limit_reads (suc (k - length chunk)) chunks) none)
                    (sym grown)
                ∙ hash_loop-limited algo max (suc n) (k - length chunk) (written ++ chunk) chunks p
                    small (omega (arith, grown))
                ∙ ap (Verdict algo max) (append_assoc written chunk (concat chunks)))
        | inr beyond ↦
            let cut = length-take (suc k) chunk (omega arith) in
            hash_loop-beyond algo max n (length written) written (take (suc k) chunk)
              (limit_reads (suc k - length chunk) chunks) p small (omega (arith, cut))
              (λ e. absurd (omega (arith, ap length e, cut)))
            ∙ verdict-beyond algo max (written ++ (chunk ++ concat chunks)) (
                omega (
                  arith,
                  length-append written (chunk ++ concat chunks),
                  length-append chunk (concat chunks),
                ))
      ]

  calculate-returns :
      (opts : Options) (content : Content) (algo : Text) (r : Result Error Text)
      → is_supported algo ≡ true
      → opts.buffer_size < 2 ^ 63
      → (0 < opts.buffer_size) ⊎ ((is_positive opts.max_size ≡ true) × (limit opts.max_size ≡ 0))
      → (let reader = limited opts.max_size content in
          hash_loop hash_hex done algo opts.max_size 0 0 [] reader.chunks reader.failure)
        ≡ r
      → calculate hash_hex done opts content algo ≡ returns r
  unfolding calculate
  calculate-returns opts content algo r known small (inl some_buffer) e =
      ground (arith, nat_same_iff opts.buffer_size 0)
  calculate-returns opts content algo r known small (inr (positive, none_left)) e =
      ground (arith, nat_same_iff (limit opts.max_size) 0)

  -- For a supported algorithm, a buffer that is not empty, a context that is never done and a content that
  -- is read without an error, `Calculate` returns the hash of the whole content, unless a limit is set and
  -- the content is longer, which is an error; for every limit below the largest int64, and however the
  -- content is divided into reads.
  pub calculate-Verdict :
      (opts : Options) (content : Content) (algo : Text)
      → is_supported algo ≡ true
      → 0 < opts.buffer_size
      → opts.buffer_size < 2 ^ 63
      → content.failure ≡ none
      → opts.max_size < 2 ^ 63 - 1
      → calculate hash_hex done opts content algo
        ≡ returns (
            if ltb 0 opts.max_size && ltb opts.max_size (length (joined content))
            then err (other_error (codes "file size exceeds maximum"))
            else ok (hash_hex algo (joined content)))
  unfolding limited limit_failure
  calculate-Verdict opts content algo known some_buffer signed whole small =
      calculate-returns opts content algo _ known signed (inl some_buffer)
        (elim (zero-or-positive opts.max_size) [
          | inl unset ↦ rw unset (rw whole (hash_loop-unlimited algo 0 0 [] content.chunks))
          | inr set ↦
              let (positive, after) = limit-suc opts.max_size set small in
              let at =
                hash_loop-limited algo opts.max_size 0 opts.max_size [] content.chunks set small
                  (omega arith) in
              rw (positive, after, whole) (ground (arith, at))
        ])

  -- For the largest int64 the limit wraps, and `Calculate` returns the hash of the empty text.
  pub calculate-max_size :
      (buffer : ℕ) (content : Content) (algo : Text)
      → is_supported algo ≡ true
      → buffer < 2 ^ 63
      → calculate hash_hex done
          (record { max_size = 2 ^ 63 - 1; buffer_size = buffer })
          content
          algo
        ≡ returns (ok (hash_hex algo []))
  unfolding limited
  calculate-max_size buffer content algo known signed =
      calculate-returns (record { max_size = 2 ^ 63 - 1; buffer_size = buffer }) content algo
        (ok (hash_hex algo [])) known signed (inr (refl, refl))
        (rw (limit_reads-zero content.chunks, limit_failure-zero content)
          (hash_loop-end algo (2 ^ 63 - 1) 0 0 []))

  -- With an empty buffer it does not come to an end, and a negative size panics.
  pub calculate-no_buffer :
      (opts : Options) (content : Content) (algo : Text)
      → is_supported algo ≡ true
      → opts.max_size < 2 ^ 63 - 1
      → (opts.buffer_size ≡ 0 → calculate hash_hex done opts content algo ≡ stalls)
        × (2 ^ 63 ≤ opts.buffer_size → calculate hash_hex done opts content algo ≡ panics)
  unfolding calculate
  calculate-no_buffer opts content algo known small =
      ground (arith, nat_same_iff opts.buffer_size 0, nat_same_iff (limit opts.max_size) 0)
