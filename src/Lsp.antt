-- ===== src/Lsp.antt =====
-- crates/henka-lsp: documents of a language server, over a connection that is a parameter. Here its
-- errors, those of error.rs; what `serde_json` reports is kept as a text.
pub mod Client
pub mod Convert
pub mod Framing
pub mod Session
pub mod Uri
use henka.Common.{ℕ}
use henka.Text.{Text}
use henka.Error.{IoError}

pub data LspError : Type 0 where
  spawn : Text → LspError
  protocol : Text → LspError
  -- The code is an `i64`.
  response : ℕ → Text → LspError
  closed : LspError
  io : IoError → LspError
  json : Text → LspError

pub data LspResult {ℓ} (A : Type ℓ) : Type ℓ where
  good : A → LspResult A
  bad : LspError → LspResult A

infixl 5 ◌>>=◌ ◌>>◌
abbrev pub ◌>>=◌ {ℓ κ} : {B : Type ℓ} {A : Type κ} → LspResult A → (A → LspResult B) → LspResult B
bad e >>= next = bad e
good a >>= next = next a

abbrev pub ◌>>◌ {ℓ} : {B : Type ℓ} → LspResult (Unit {0}) → LspResult B → LspResult B
first >> second = first >>= λ u. second
