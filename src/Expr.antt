-- ===== src/Expr.antt =====
-- nemu/src/monitor/debug/expr.c: tokens, evaluation, and `expr`.
pub mod Token
pub mod Lexer
pub mod Eval
mod Tests
use mathlib.Core.List.{reverse}
use nju_ics2020_pa.Base.{ℕ, ◌+◌, Option, none, some, List, Result, ok, ◌>>=◌, length}
use nju_ics2020_pa.Expr.Lexer.{make_token}
use nju_ics2020_pa.Expr.Eval.{Env, eval}

-- `expr(e, &success)`: `ok none` is `*success = false`.
unfoldable pub expr : Env → List ℕ → Result (Option ℕ)
expr env e = do
  lexed ← make_token e
  elim lexed [
    | none ↦ ok none
    | some tokens ↦ do v ← eval env (length tokens + 1) (reverse tokens); ok (some v)
  ]
