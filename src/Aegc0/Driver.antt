-- ===== src/Aegc0/Driver.antt =====
-- The run of the seed compiler (src/seed/aegc0/driver.c). Files and the C compiler are outside:
-- the model takes the source, whether the C file can be opened, and what the C compiler returns
-- for a text.
pub mod Compiled
use nullprt.Base.{
  zero, suc, [], ◌∷◌, true, false, none, some, inl, inr, refl, not, bytes_eq, if◌then◌else◌, Bool,
  codes, Option, List, Bytes, ℕ,
}
use nullprt.Aegc0.Parser.{Parser, parser_init}
use nullprt.Aegc0.Sema.{sema_init, sema_check_program}
use nullprt.Aegc0.Emit.{emit_c_program}
use nullprt.Aegc0.Statements.{parse_program}
use nullprt.Aegc0.Ast.{Program}

-- What the command line names; `emit_c_path` has a default.
pub record Options : Type 0 where
  pub in_path : Option Bytes
  pub out_path : Option Bytes
  pub emit_c_path : Bytes

abbrev pub default_options : Options
default_options = record { in_path = none; out_path = none; emit_c_path = codes "aegc0_out.c" }

-- An option with a value behind it; everything else is a wrong use.
unfoldable pub set_option : Bytes → Bytes → Options → Option Options
set_option opt value o =
    if bytes_eq opt (codes "-i")
    then some (record { in_path = some value; out_path = o.out_path; emit_c_path = o.emit_c_path })
    else if bytes_eq opt (codes "-o")
    then some (record { in_path = o.in_path; out_path = some value; emit_c_path = o.emit_c_path })
    else if bytes_eq opt (codes "--emit-c")
    then some (record { in_path = o.in_path; out_path = o.out_path; emit_c_path = value })
    else none

-- The loop over `argv`, from the first argument on.
unfoldable pub read_args : Options → List Bytes → Option Options
read_args o [] = some o
read_args o (a ∷ []) = none
read_args o (a ∷ v ∷ args) = elim (set_option a v o) [ none ↦ none | some o' ↦ read_args o' args ]

-- The exit code, and what is in the C file if one was written.
pub record Run : Type 0 where
  pub code : ℕ
  pub written : Option Bytes

abbrev pub failed : ℕ → Run
failed n = record { code = n; written = none }

-- What the driver asks of its surroundings: `read_file`, whether `fopen` gives a file for the C
-- text, and whether a C compiler takes that text.
pub record Outside : Type 0 where
  pub read_file : Bytes → Option Bytes
  pub can_write : Bytes → Bool
  pub compiles : Bytes → Bytes → Bool

unfoldable pub finish : Outside → Bytes → Bytes → Program → Run
finish out c_path exe prog =
    if out.can_write c_path
    then record {
      code = if out.compiles (emit_c_program prog) exe then 0 else 1;
      written = some (emit_c_program prog);
    }
    else failed 1

-- What follows the parser: the checks and the C text.
unfoldable pub after_parse : Outside → Bytes → Bytes → Program × Parser → Run
after_parse out c_path exe (prog, p) =
    if p.had_error
    then failed 1
    else if (sema_check_program sema_init prog).0
    then finish out c_path exe prog
    else failed 1

-- From the source on. Where the fuel of the parser runs out, there is no run.
unfoldable pub compile : Outside → Bytes → Bytes → Bytes → Option Run
compile out c_path exe src = elim (parse_program (parser_init src)) [
  | none ↦ none
  | some r ↦ some (after_parse out c_path exe r)
]

unfoldable pub run_options : Outside → Options → Option Run
run_options out o = elim o.in_path [
  | none ↦ some (failed 2)
  | some input ↦ elim o.out_path [
    | none ↦ some (failed 2)
    | some exe ↦ elim (out.read_file input) [
      | none ↦ some (failed 1)
      | some src ↦ compile out o.emit_c_path exe src
    ]
  ]
]

unfoldable pub main : Outside → List Bytes → Option Run
main out args = elim (read_args default_options args) [
  | none ↦ some (failed 2)
  | some o ↦ run_options out o
]
