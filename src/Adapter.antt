-- ===== src/Adapter.antt =====
-- internal/adapter/adapter.go: a storage backend, as the operations of the interface over a state. Its
-- implementations are arguments of what uses it.
use syncrules.Prelude.{Text, Bool, Option, List, [], ◌∷◌, ◌++◌, Result}
use syncrules.Domain.{Error, FileInfo, Transport, TransportType}

-- The bytes that a reader delivers, read by read, and the error that ends it, if one does.
pub record Content : Type 0 where
  pub chunks : List Text
  pub failure : Option Error

abbrev pub concat : List Text → Text
concat [] = []
concat (chunk ∷ chunks) = chunk ++ concat chunks

-- The bytes that a reader delivers.
abbrev pub joined : Content → Text
joined c = concat c.chunks

-- The operations act on a state `W` that several adapters may share.
pub record Adapter (W : Type 0) : Type 0 where
  pub list : W → Text → Result Error (List FileInfo)
  pub read : W → Text → Result Error Content
  pub write : W → Text → Content → W × Option Error
  pub delete : W → Text → W × Option Error
  pub stat : W → Text → Result Error FileInfo
  pub mkdir : W → Text → W × Option Error
  pub exists : W → Text → Result Error Bool
  pub close : W → W × Option Error

-- `AdapterFactory`
pub record AdapterFactory (W : Type 0) : Type 0 where
  pub create : W → Transport → Text → W × Result Error (Adapter W)
  pub supports : TransportType → Bool
