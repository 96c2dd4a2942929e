-- ===== src/Lib.antt =====
-- Henka: the core of a server for code refactorings.
--
-- The program answers requests of a client for a registered project: it finds the project and the
-- working copy, asks a language server for an edit, and previews the edit or writes it to disk.
--
-- Parts, and the files that model them:
-- - Text, FilePath, Fs: what the program uses of Rust's `str`, `std::path` and `std::fs`. A text is
--   a list of Unicode scalar values, and offsets into it count UTF-8 bytes; a path is a list of
--   components. The file system is a record of operations on a state (Fs); Fs/Memory is one that
--   satisfies the promises that the theorems ask for.
-- - Error: crates/henka-core/src/error.rs. A `Result` has a third case, a panic.
-- - Edit: crates/henka-core/src/edit.rs. Edit/Offset is `resolve_offset`; Edit/Rewrite is what
--   `EditApplier::rewrite_file` does to a text; Edit/Plan reads the files, and previews; Edit/Apply
--   is `EditApplier::apply`; Edit/Expect is `identifier_at` and `text_in_range`.
--   `WorkspaceEdit::retarget` is in Edit.
-- - Language: crates/henka-core/src/language.rs; Language/Detect is `detect_languages`.
-- - Project, Registry: crates/henka-core/src/project.rs and registry.rs. Registry/Store has the
--   operations, each a function of the registry and the state of the file system that returns both.
-- - Operation, Provider: crates/henka-core/src/operation.rs and provider.rs, over a type of
--   implementations.
-- - Vcs: crates/henka-core/src/vcs.rs, with the tools that it runs as parameters; Vcs/Fingerprint is
--   `detect_revision` and `working_copy_fingerprint`.
-- - Json: the values of the crate `serde_json`.
-- - Lsp: crates/henka-lsp/src. Lsp/Framing is framing.rs over the bytes of a stream. Lsp/Client is
--   client.rs: a record of the pending requests, the answers that were given and the messages that
--   were sent, with one function for each event; Lsp/Client/Reach has the events as a step relation,
--   and Lsp/Client/Serve the reader task. Lsp/Session is the record of session.rs, and
--   Lsp/Session/Documents its operations, Lsp/Session/Collect the collection of the files to index;
--   Lsp/Session/Overlay says what the server has of each document by what it was told last. Lsp/Uri
--   has the conversions between paths and URIs, and Lsp/Convert is the rest of convert.rs: Edits the
--   conversion of edits, Source the text quoted beside a location, Queries, Outline and Calls the
--   results.
-- - Rust: crates/henka-lang-rust/src/operations.rs. Rust/Run has the `run` of each operation, a
--   function of the session that returns the outcome and the session behind it; Rust/Actions is the
--   choice of a code action.
-- - Server: crates/henka-server/src. Server/PathMap is pathmap.rs, Server/Ops is ops.rs, and of
--   mcp.rs Server/Dispatch chooses the languages that serve a request, Server/Workspace the working
--   copy, Server/Confine is `reject_edits_outside`, Server/Finish is `finish_edit`, Server/Run is
--   `run_operation`, and Server/Handle is `dispatch_operation`, over the language backends as a
--   parameter. The backends and the tools may write files of their own.
--
-- Loops over lists are structural recursions. The reader task of a client is a recursion on fuel;
-- every message takes bytes off the stream, so more fuel than the stream has bytes is enough, and
-- Lsp/Client/Serve proves it. The collection of the files to index has one more turn than the tree
-- has directories, which Lsp/Session/Collect proves to be enough. The walk of a tree stops
-- after 50000 entries, as the code does. A `u32` wraps at 2 ^ 32, and a `u64` or `i64` at 2 ^ 64.
--
-- Not modelled: the operations of the Java and TypeScript providers, the start of the three language
-- servers, the language servers and the processes that run them, the wait for a server's
-- diagnostics, the transports, the command line, the environment variables, and the crates
-- `walkdir`, `toml` and `similar` and the code that `serde` generates, which are parameters.
-- Requests run one at a time, as a session's guard has them.
mod Common
pub mod Text
pub mod FilePath
pub mod Error
pub mod Language
pub mod Project
pub mod Registry
pub mod Fs
pub mod Edit
pub mod Json
pub mod Operation
pub mod Provider
pub mod Vcs
pub mod Lsp
pub mod Server
pub mod Rust
mod Tests
