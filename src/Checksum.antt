-- ===== src/Checksum.antt =====
-- internal/core/checksum/checksum.go. The hash functions are a parameter.
pub mod Sizes
use syncrules.Prelude.{
  ℕ, zero, suc, ◌+◌, ◌-◌, ◌*◌, ◌^◌, ◌%◌, Text, text_eq, nat_eq, codes, Bool, true, false, Option,
  none, some, List, [], ◌∷◌, ◌++◌, ◌==◌, ◌&&◌, ◌||◌, not, if◌then◌else◌, length, ltb, leb, Result,
  ok, err,
}
use syncrules.Domain.{Error, other_error, wrapped, context_done}
use syncrules.Adapter.{Content}

abbrev pub md5 : Text
md5 = codes "md5"

abbrev pub sha256 : Text
sha256 = codes "sha256"

-- `max_size` is the bit pattern of an int64, and `buffer_size` of an int.
pub record Options : Type 0 where
  pub max_size : ℕ
  pub buffer_size : ℕ

abbrev pub default_options : Options
default_options = record { max_size = 100 * 1024 * 1024; buffer_size = 32 * 1024 }

-- `IsSupported`
unfoldable pub is_supported : Text → Bool
is_supported algo = algo == md5 || algo == sha256

-- `x > 0` and `x > y` of the bit patterns of int64s.
abbrev pub is_positive : ℕ → Bool
is_positive x = ltb 0 x && ltb x (2 ^ 63)

abbrev pub signed_gt : ℕ → ℕ → Bool
signed_gt x y =
    if ltb x (2 ^ 63) then ltb (2 ^ 63) (suc y) || ltb y x else ltb (2 ^ 63) (suc y) && ltb y x

unfoldable pub take : ℕ → Text → Text
take zero s = []
take (suc n) [] = []
take (suc n) (c ∷ s) = c ∷ take n s

-- `io.LimitReader`: what is read from the reads of a reader while bytes remain, and then the end.
pub limit_reads : ℕ → List Text → List Text
unfolding take
limit_reads remaining [] = []
limit_reads zero (chunk ∷ chunks) = []
limit_reads (suc n) (chunk ∷ chunks) =
    take (suc n) chunk ∷ limit_reads (suc n - length chunk) chunks

-- The error at the end is only met while bytes remain.
pub limit_failure : ℕ → Content → Option Error
limit_failure remaining content =
    if ltb (length_all content.chunks) remaining then content.failure else none
  where
    length_all : List Text → ℕ
    length_all [] = 0
    length_all (chunk ∷ chunks) = length chunk + length_all chunks

-- The limit `MaxSize+1` as `LimitReader` takes it: none remain where it is not positive.
abbrev pub limit : ℕ → ℕ
limit max_size = let n = (max_size + 1) % 2 ^ 64 in if ltb n (2 ^ 63) then n else 0

unfoldable pub limited : ℕ → Content → Content
unfolding limit_reads limit_failure
limited max_size content =
    if is_positive max_size
    then record {
      chunks = limit_reads (limit max_size) content.chunks;
      failure = limit_failure (limit max_size) content;
    }
    else content

-- What becomes of a call of `Calculate`: it returns, `make` panics on a negative size of the buffer, or
-- it reads nothing again and again until the context is done, since the buffer is empty.
pub data Outcome : Type 0 where
  returns : Result Error Text → Outcome
  panics stalls : Outcome

-- The hash in hexadecimal digits of what was written to it, and what polls of `ctx.Done()` say.
module _ (hash_hex : Text → Text → Text) (done : ℕ → Bool) where
  -- The loop of `Calculate` from poll `n` on. `written` is what the hasher has got; a read that gives
  -- bytes gives no error with them.
  pub hash_loop : Text → ℕ → ℕ → ℕ → Text → List Text → Option Error → Result Error Text
  hash_loop algo max_size n total written [] failure =
      if done n then err context_done else elim failure [
        | none ↦ ok (hash_hex algo written)
        | some e ↦ err (wrapped (codes "read error") e)
      ]
  hash_loop algo max_size n total written (chunk ∷ chunks) failure =
      let total' = (total + length chunk) % 2 ^ 64 in
      let rest = hash_loop algo max_size (suc n) total' (written ++ chunk) chunks failure in
      if done n
      then err context_done
      else if not (chunk == []) && (is_positive max_size && signed_gt total' max_size)
      then err (other_error (codes "file size exceeds maximum"))
      else rest

  -- `Calculate`, by the reads that the buffer makes of the content.
  unfoldable pub calculate : Options → Content → Text → Outcome
  unfolding is_supported limited hash_loop
  calculate opts content algo =
      if is_supported algo
      then (let reader = limited opts.max_size content in
          if leb (2 ^ 63) opts.buffer_size
          then panics
          else if opts.buffer_size == 0
              && not (is_positive opts.max_size && limit opts.max_size == 0)
          then stalls
          else returns (hash_loop algo opts.max_size 0 0 [] reader.chunks reader.failure))
      else returns (err (other_error (codes "unsupported algorithm")))
