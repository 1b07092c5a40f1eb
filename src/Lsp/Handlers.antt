-- ===== src/Lsp/Handlers.antt =====
-- What the handlers of completion, symbols and hovering gather (src/lsp/nprt-lsp/main.c); how it is printed,
-- and the ends of the buffers it is printed to, are left out.
use nullprt.Base.{◌&&◌, ◌++◌, codes, take, List, Bool, Bytes, Option, [], true, false, none, some}
use nullprt.Base.Int.{is_nonneg, ℤ}
use nullprt.Lsp.Query.{
  Completion, collect_completions, collect_workspace_symbols, collect_document_symbols,
  symbol_type_expr, symbol_doc,
}
use nullprt.Lsp.Index.{Symbol}
use nullprt.Lsp.Server.{Server, find_text, symbol_under}
use nullprt.Lsp.Messages.{extract_completion_prefix}

-- `handle_completion`; the document has to be one of the server.
unfoldable pub completions : Server → Option Bytes → ℤ → ℤ → List Completion
completions s none line ch = []
completions s (some uri) line ch = elim (is_nonneg line && is_nonneg ch) [
  | false ↦ []
  | true ↦ elim (find_text uri (s.docs)) [
    | none ↦ []
    | some text ↦ collect_completions (s.index) uri (extract_completion_prefix text line ch 128) 256
  ]
]

abbrev or_else : Option Bytes → Bytes → Bytes
or_else none other = other
or_else (some text) other = text

-- `handle_workspace_symbol`
unfoldable pub workspace_symbols : Server → Option Bytes → Option Bytes → Option Bytes → List Symbol
workspace_symbols s query mode sort_key =
    collect_workspace_symbols (s.index) (or_else query []) (some (or_else mode (codes "prefix")))
      (some (or_else sort_key (codes "name"))) 2048

-- `handle_document_symbol`
unfoldable pub document_symbols : Server → Option Bytes → Bool → Bool → List Symbol
document_symbols s none include_macros filter_conditional = []
document_symbols s (some uri) include_macros filter_conditional =
    collect_document_symbols (s.index) uri include_macros filter_conditional 512

-- `handle_hover`: the name, its type and its documentation.
unfoldable pub hover : Server → Option Bytes → ℤ → ℤ → Option (Bytes × Bytes × Bytes)
hover s uri line ch = elim (symbol_under s uri line ch) [
  | none ↦ none
  | some u ↦ some (
    u.1,
    or_else (symbol_type_expr (s.index) u.1 256) (take 255 (u.1 ++ codes ": unknown")),
    or_else (symbol_doc (s.index) u.1 256) (codes "No documentation."),
  )
]
