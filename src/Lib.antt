-- ===== src/Lib.antt =====
-- A model of the Nullprt toolchain: the seed compiler `aegc0`, whole, the self-hosted compiler
-- `aegc1`, stage by stage, the core of the package manager `nprt-pkg`, of the formatter `nprt-fmt`
-- the spacing, and of the language server `nprt-lsp` the index, the JSON reader and the handlers
-- that open documents and answer for places in them.
--
-- The program's parts. `aegc0` (src/seed/aegc0) parses a source by recursive descent, checks the
-- variables and the kinds of each function, and writes the program as C text for a C compiler.
-- `aegc1` (src/self/aegc1) reads a source file, lexes and parses it into a list of items with
-- feature bits, checks the tree, the types, the borrows and the instances, lowers it to an
-- intermediate form, runs the protection passes over that and validates it, and hands it to its
-- back ends. Each stage takes the whole result of the one before. `nprt-pkg` (src/pkg/nprt-pkg)
-- reads the dependencies of a package, searches them for cycles and settles their versions, and
-- keeps the packages it fetches in a store, run-length coded. `nprt-lsp` (src/lsp/nprt-lsp) keeps
-- the texts of the open documents twice, in its own table and in its index; it parses each with
-- the parser of aegc0, and answers for a place in a text by the word there and the index.
--
-- Files. `Base` holds the shared names, lists, loops, texts, bits and a sort. `Fmt` is
-- fmt/nprt-fmt/format_core.c. `Aegc0.Token` and `.Lexer` are lexer.c of the seed compiler, `.Ast`
-- is ast.h, `.Parser`, `.Expressions` and `.Statements` are parser.c, `.Sema` is sema.c, `.Emit`
-- is emit_c.c, `.Arena` is arena.c and `.Driver` is driver.c; functions keep their names, a loop
-- or a branch of one has a name of its own. The grammar of the language stands in
-- `Expressions.Grammar` and `Statements.Grammar`, its typing rules in `Sema.Typing`.
-- `Aegc1.Token`, `.Kinds`, `.Cursor` and `.Lexer` are frontend/lexer.c (`a1_lexer_next` is `next`,
-- `bump` is `bump`); `.Feature`, `.Features`, `.Ast`, `.Parser` and `.Module` are frontend/ast.h,
-- parser.c and ast_validate.c (`a1_parse_module` is `parse_module`); `.Semantic` is semantic/*.c;
-- `.Ir` is ir/nprt_ir.c and ir/protect_passes.c; `.Driver` is the way of driver/main.c through
-- them; `.Config` is the table of runtime/config_parser.c, `.Extension` is
-- runtime/extension_registry.c, `.BuildGraph` is the record of driver/build_graph.c, and `.Fixes`
-- is diag/autofix_conflict.c. `Npkg.Version` and `.Resolver` are resolver.c (`dfs_cycle`,
-- `semver_satisfies` and the rest under their names, `npkg_resolve_dependency_graph` as
-- `resolve_dependency_graph`), `.Cas` is the coding of cas.c, `.Sha256` is sha256.c. `Lsp.Json` is
-- json_min.c of the language server; `.Index` is the part of index.c that fills the index
-- (`nls_index_upsert_doc` is `index_upsert_doc`) and `.Query` the part that asks it
-- (`nls_find_references` is `find_references`); `.Text` is the places and words of main.c,
-- `.Messages` its texts in messages, `.Server` its documents and its way to definitions and
-- references, `.Rename`, `.Format` and `.Handlers` the other handlers that are modelled. The
-- children of a module prove what it does. `Tests` runs the definitions at concrete inputs.
--
-- State. A lexer's `src[i..len)` is the list `rest`; a token's text is its offset and its bytes;
-- an enumeration is a data type with its values beside it; a mask is a number and its bits are
-- read by `has`. A loop of the source is `while` on fuel: one round more than bytes are left for
-- the lexer's loops, and than tokens can be left for the parser's; each round takes at least one
-- of them. `uint32_t` and `uint64_t` wrap around where the source computes with them.
--
-- `dfs_cycle` has a call to spare for each dependency, and takes a white one at each; the coder
-- and `sha256_update` have a round for each byte. An `int` that is only compared is an integer
-- without bounds.
--
-- The seed parser is a mutual recursion on fuel: four calls for each token that is left, and a few
-- more, since at most four functions call one another before a token is read; its theorems say
-- that this is enough. The surroundings of its driver are the functions of `Outside`. Its arena
-- doubles the capacity, with a round for each byte that is needed. The JSON reader has four calls
-- for each byte.
--
-- The loops of the language server are structural: a loop over lines goes over the places where
-- one starts, and a loop that passes over a word counts down its bytes. A text has no null byte.
--
-- Not modelled: the bytes in the arenas of aegc0 and of the JSON reader, since a node is the value
-- it holds, so that a block that moves as it grows is not seen; what is lost of an answer that is
-- cut at the end of its buffer; the back ends of aegc1, the debugger, the other handlers of the
-- language server (ranges to format, tokens, hints, folding, selections, signatures, types,
-- implementations, code actions) and the other tools; files, the command line, what is printed,
-- and, but for the texts of the index, the failure of an allocation.
pub mod Aegc0
pub mod Aegc1
pub mod Base
pub mod Fmt
pub mod Lsp
pub mod Npkg
pub mod Tests
