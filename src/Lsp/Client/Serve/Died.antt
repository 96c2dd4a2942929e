-- ===== src/Lsp/Client/Serve/Died.antt =====
-- The reader task on a message whose length no `Vec` can have.
use henka.Common.{ℕ, zero, suc, List, [], ◌∷◌, some}
use henka.Json.{Json}
use henka.Lsp.{good}
use henka.Lsp.Framing.{Bytes, Codec, read_message, returned}

-- The messages that are read from a stream, up to its end or the first failure.
unfoldable pub messages_of : Codec → ℕ → Bytes → List Json
messages_of c zero stream = []
messages_of c (suc n) stream = elim (read_message c stream) [
  | returned (good (some (msg, rest))) ↦ msg ∷ messages_of c n rest
  | other ↦ []
]
