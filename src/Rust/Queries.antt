-- ===== src/Rust/Queries.antt =====
-- The position queries of the Rust provider that differ in their request and in the key of their
-- result: `GotoQueryOp` of crates/henka-lang-rust/src/operations.rs.
use henka.Text.{Text, codes}

pub record GotoQueryOp : Type 0 where
  pub id : Text
  pub title : Text
  pub description : Text
  pub method : Text
  pub result_key : Text

abbrev pub definition : GotoQueryOp
definition = record {
  id = codes "go-to-definition";
  title = codes "Go to definition";
  description = codes "Resolve the symbol at the given position to where it is defined";
  method = codes "textDocument/definition";
  result_key = codes "definitions";
}

abbrev pub implementations : GotoQueryOp
implementations = record {
  id = codes "find-implementations";
  title = codes "Find implementations";
  description = codes "Find the concrete implementations of the symbol at the given position";
  method = codes "textDocument/implementation";
  result_key = codes "implementations";
}
