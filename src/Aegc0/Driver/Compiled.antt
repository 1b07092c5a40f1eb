-- ===== src/Aegc0/Driver/Compiled.antt =====
-- What a run of the seed compiler (src/seed/aegc0/driver.c) means: its stages together.
use nullprt.Aegc0.Driver.{parser_init, failed, Run, Outside}
use nullprt.Aegc0.Emit.{binary_text, unary_text, emit_c_program}
use nullprt.Base.{true, false, some, codes, ℕ, if◌then◌else◌, ◌≡◌, Bytes}
use nullprt.Aegc0.Expressions.Grammar.{Operator}
use nullprt.Aegc0.Ast.{uop_not, uop_neg, BinaryOp, Program}
use nullprt.Aegc0.Token.{TokenKind}
use nullprt.Aegc0.Parser.Lexed.{IsStopped}
use nullprt.Aegc0.Statements.Sound.{Read}
use nullprt.Aegc0.Statements.{parse_program}
use nullprt.Aegc0.Sema.Typing.{CheckedFns}
use nullprt.Aegc0.Parser.{Parser}
use nullprt.Aegc0.Statements.Grammar.{SpellsProgram}

-- Without an error on the way, the tokens of the source spell the program, from its start up to its
-- end or up to a byte that begins no token.
pub record IsSpelled (src : Bytes) (prog : Program) : Type 0 where
  pub last : Parser
  pub spells : Read (SpellsProgram prog) (parser_init src) last
  pub clean : last.had_error ≡ false
  pub stopped : IsStopped src last

-- In the C text the operators stand as the signs that spell them.
pub record KeepsSigns : Type 0 where
  pub binary_sign :
      (k : TokenKind) (l : ℕ) (op : BinaryOp) (sign : Bytes)
      → Operator k l op sign
      → binary_text op ≡ sign
  pub negative : unary_text uop_neg ≡ codes "-"
  pub complement : unary_text uop_not ≡ codes "!"

-- What a run comes to, with its reason.
pub data Result (out : Outside) (c_path exe src : Bytes) : Run → Type 0 where
  syntax_error :
      {r : Program × Parser}
      → (parse_program (parser_init src) ≡ some r)
      → (r.1.had_error ≡ true)
      → Result out c_path exe src (failed 1)
  type_error :
      {prog : Program}
      → IsSpelled src prog
      → ¬ CheckedFns prog
      → Result out c_path exe src (failed 1)
  no_file :
      {prog : Program}
      → IsSpelled src prog
      → CheckedFns prog
      → (out.can_write c_path ≡ false)
      → Result out c_path exe src (failed 1)
  c_written :
      {prog : Program}
      → IsSpelled src prog
      → CheckedFns prog
      → (out.can_write c_path ≡ true)
      → KeepsSigns
      → Result out c_path exe src (record {
        code = if out.compiles (emit_c_program prog) exe then 0 else 1;
        written = some (emit_c_program prog);
      })
