-- ===== src/Server/Mcp.antt =====
-- Tool errors of crates/henka-server/src/mcp.rs. The text of a core error is what `thiserror`
-- generates for it, and is a parameter.
use henka.Text.{Text}
use henka.Error.{Error, config_read, config_write, backend, io, Result, ok, err, panic}

pub data McpError : Type 0 where
  invalid_params : Text → McpError
  internal_error : Text → McpError

-- What a handler does: it answers, refuses, or its task panics.
pub data Reply {ℓ} (A : Type ℓ) : Type ℓ where
  answer : A → Reply A
  refuse : McpError → Reply A
  abort : Reply A

infixl 5 ◌>>=◌ ◌>>◌
abbrev pub ◌>>=◌ {ℓ κ} : {A : Type ℓ} {B : Type κ} → Reply A → (A → Reply B) → Reply B
answer a >>= f = f a
refuse e >>= f = refuse e
abort >>= f = abort

abbrev pub ◌>>◌ {ℓ} : {B : Type ℓ} → Reply (Unit {0}) → Reply B → Reply B
m >> k = m >>= λ _. k

-- `into_mcp`
unfoldable pub into_mcp : (Error → Text) → Error → McpError
into_mcp message (backend t) = internal_error (message (backend t))
into_mcp message (config_read p t) = internal_error (message (config_read p t))
into_mcp message (config_write t) = internal_error (message (config_write t))
into_mcp message (io e) = internal_error (message (io e))
into_mcp message e = invalid_params (message e)

-- `.map_err(into_mcp)`
abbrev pub map_err {ℓ} : {A : Type ℓ} → (Error → Text) → Result A → Reply A
map_err message (ok a) = answer a
map_err message (err e) = refuse (into_mcp message e)
map_err message panic = abort
