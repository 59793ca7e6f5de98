-- ===== src/Ui.antt =====
-- nemu/src/monitor/debug/ui.c: the commands of the debugger. A line is the list of its bytes.
pub mod Watch
pub mod Delete
mod Tests
use mathlib.Core.List.{map}
use nju_ics2020_pa.Base.{
  ℕ, zero, suc, ◌+◌, ◌-◌, ◌*◌, ◌%◌, ◌^◌, Bool, true, false, not, List, [], ◌∷◌, ◌++◌, Option, none,
  some, ◌==◌, if◌then◌else◌, Result, ok, stop, undefined, assertion, out_of_fuel, ◌>>=◌, of_option,
  length, update,
}
use nju_ics2020_pa.Base.CString.{strtol, same_text, to_u32}
use nju_ics2020_pa.Base.Int.{ℤ, pos, negsuc, signed}
use nju_ics2020_pa.Watchpoint.{
  Pool, Wp, owned, deref, new_wp, free_wp, no_to_wp, watchpoint_display, Line,
}

-- `strtok`: the token, and where the next call goes on.
abbrev pub skip : ℕ → List ℕ → List ℕ
skip delim [] = []
skip delim (c ∷ s) = if c == delim then skip delim s else c ∷ s

abbrev pub token_of : ℕ → List ℕ → List ℕ
token_of delim [] = []
token_of delim (c ∷ s) = if c == delim then [] else c ∷ token_of delim s

abbrev pub behind : ℕ → List ℕ → List ℕ
behind delim [] = []
behind delim (c ∷ s) = if c == delim then s else behind delim s

abbrev pub strtok : ℕ → List ℕ → Option (List ℕ × List ℕ)
strtok delim s = elim (skip delim s) [
  | [] ↦ none
  | c ∷ t ↦ some (token_of delim (c ∷ t), behind delim (c ∷ t))
]

-- `(int)strtol(s, NULL, 10)`, which is `atoi(s)` too.
abbrev pub to_int : List ℕ → ℤ
to_int s = signed (2 ^ 31) (to_u32 (strtol 10 s))

pub data Command : Type 0 where
  cmd_help cmd_c cmd_q cmd_si cmd_info cmd_x cmd_p cmd_w cmd_d : Command

-- What a command prints, besides the texts that it always does.
pub data Reply : Type 0 where
  nothing error : Reply
  value : ℕ → Reply
  words : List ℕ → Reply
  watchpoints : List Line → Reply
  commands : List Command → Reply

-- The watchpoints and the rest of the emulator.
pub record Ui (S : Type 0) : Type 0 where
  pub pool : Pool
  pub rest : S

-- What the commands call. `host_word` is the word at `guest_to_host(addr)`.
pub record Calls (S : Type 0) : Type 0 where
  pub cpu_exec : ℕ → Ui S → Result (Ui S)
  pub expr : S → List ℕ → Result (Option ℕ)
  pub host_word : S → ℕ → Result ℕ

-- `wp->watch_expr = ...` and `wp->watch_value = ...`
abbrev pub set_expr : ℕ → List ℕ → Pool → Pool
set_expr w t s = record s {
  wp_pool = update s.wp_pool w (record (s.wp_pool w) { watch_expr = owned t });
}

abbrev pub set_value : ℕ → ℕ → Pool → Pool
set_value w v s = record s {
  wp_pool = update s.wp_pool w (record (s.wp_pool w) { watch_value = v });
}

-- One argument of `d`.
pub delete_one : List ℕ → Pool → Result Pool
delete_one arg s = do
  wp ← no_to_wp (to_int arg) s
  elim wp [ none ↦ ok s | some w ↦ free_wp (some w) s ]

-- The loop over the arguments; each is at least one character.
pub delete_loop : ℕ → List ℕ → Pool → Result Pool
delete_loop zero line s = elim (strtok b' ' line) [
  | none ↦ ok s
  | some (arg, more) ↦ stop out_of_fuel
]
delete_loop (suc n) line s = elim (strtok b' ' line) [
  | none ↦ ok s
  | some (arg, more) ↦ delete_one arg s >>= λ s'. delete_loop n more s'
]

abbrev pub Entry : Type 0
Entry = List ℕ × Command

abbrev pub cmd_table : List Entry
cmd_table =
    (b'h' ∷ b'e' ∷ b'l' ∷ b'p' ∷ [], cmd_help)
    ∷ (b'c' ∷ [], cmd_c)
    ∷ (b'q' ∷ [], cmd_q)
    ∷ (b's' ∷ b'i' ∷ [], cmd_si)
    ∷ (b'i' ∷ b'n' ∷ b'f' ∷ b'o' ∷ [], cmd_info)
    ∷ (b'x' ∷ [], cmd_x)
    ∷ (b'p' ∷ [], cmd_p)
    ∷ (b'w' ∷ [], cmd_w)
    ∷ (b'd' ∷ [], cmd_d)
    ∷ []

pub find_cmd : List Entry → List ℕ → Option Command
find_cmd [] name = none
find_cmd ((n, c) ∷ table) name = if same_text name n then some c else find_cmd table name

module _ {S : Type 0} where
  module _ (calls : Calls S) where
    pub run_c : Ui S → Result (Bool × Reply × Ui S)
    run_c u = calls.cpu_exec (2 ^ 64 - 1) u >>= λ u'. ok (true, nothing, u')

    pub run_si : Option (List ℕ) → Ui S → Result (Bool × Reply × Ui S)
    run_si none u = calls.cpu_exec 1 u >>= λ u'. ok (true, nothing, u')
    run_si (some args) u =
        calls.cpu_exec (to_u32 (strtol 10 args)) u >>= λ u'. ok (true, nothing, u')

    pub run_p : Option (List ℕ) → Ui S → Result (Bool × Reply × Ui S)
    run_p none u = ok (true, error, u)
    run_p (some args) u =
        calls.expr u.rest args >>= λ v. ok (true, elim v [ none ↦ error | some n ↦ value n ], u)

    -- `strlen(NULL)` is undefined.
    pub run_w : Option (List ℕ) → Ui S → Result (Bool × Reply × Ui S)
    run_w none u = stop undefined
    run_w (some args) u = do
      (wp, s) ← new_wp u.pool
      let s' = set_expr wp args s
      v ← calls.expr u.rest args
      elim v [
        | none ↦ free_wp (some wp) s' >>= λ s''. ok (false, error, record u { pool = s'' })
        | some n ↦ ok (true, nothing, record u { pool = set_value wp n s' })
      ]

    -- `args` is `line` here, which `strtok(NULL, " ")` goes on with.
    pub run_d : List ℕ → Ui S → Result (Bool × Reply × Ui S)
    run_d line u = elim (strtok b' ' line) [
      | none ↦ ok (false, error, u)
      | some t ↦
          delete_loop (length line) line u.pool >>= λ s. ok (true, nothing, record u { pool = s })
    ]

    -- The words from `addr` on.
    pub words_loop : ℕ → S → ℕ → Result (List ℕ)
    words_loop zero rest addr = ok []
    words_loop (suc n) rest addr = do
      w ← calls.host_word rest addr
      ws ← words_loop n rest ((addr + 4) % 2 ^ 32)
      ok (w ∷ ws)

    abbrev not_negative : ℤ → ℕ
    not_negative (pos n) = n
    not_negative (negsuc n) = 0

    pub run_x : List ℕ → Ui S → Result (Bool × Reply × Ui S)
    run_x line u = elim (strtok b' ' line) [
      | none ↦ ok (true, error, u)
      | some (arg, more) ↦ elim (strtok 10 more) [
        | none ↦ ok (true, error, u)
        | some (e, end) ↦ calls.expr u.rest e >>= λ v. elim v [
          | none ↦ ok (true, error, u)
          | some addr ↦
              words_loop (not_negative (to_int arg)) u.rest addr >>= λ ws. ok (true, words ws, u)
        ]
      ]
    ]

    -- `info r` calls `isa_reg_display`, which changes nothing.
    pub run_info : List ℕ → Ui S → Result (Bool × Reply × Ui S)
    run_info line u = elim (strtok b' ' line) [
      | none ↦ ok (true, error, u)
      | some (arg, more) ↦
          if same_text arg (b'r' ∷ [])
          then ok (true, nothing, u)
          else if same_text arg (b'w' ∷ [])
          then (watchpoint_display u.pool >>= λ ls. ok (true, watchpoints ls, u))
          else ok (true, nothing, u)
    ]

    -- The commands that are described.
    pub run_help : List ℕ → Ui S → Result (Bool × Reply × Ui S)
    run_help line u = elim (strtok b' ' line) [
      | none ↦ ok (true, commands (map (λ (e : Entry). e.1) cmd_table), u)
      | some (arg, more) ↦
          ok (true, elim (find_cmd cmd_table arg) [ none ↦ error | some c ↦ commands (c ∷ []) ], u)
    ]

    -- `args` is NULL where nothing is behind the command.
    abbrev args_of : List ℕ → Option (List ℕ)
    args_of [] = none
    args_of (c ∷ s) = some (c ∷ s)

    pub run_cmd : Command → List ℕ → Ui S → Result (Bool × Reply × Ui S)
    run_cmd cmd_help line u = run_help line u
    run_cmd cmd_c line u = run_c u
    run_cmd cmd_q line u = ok (false, nothing, u)
    run_cmd cmd_si line u = run_si (args_of line) u
    run_cmd cmd_info line u = run_info line u
    run_cmd cmd_x line u = run_x line u
    run_cmd cmd_p line u = run_p (args_of line) u
    run_cmd cmd_w line u = run_w (args_of line) u
    run_cmd cmd_d line u = run_d line u

    -- One round of `ui_mainloop`.
    pub run_line : List ℕ → Ui S → Result (Bool × Reply × Ui S)
    run_line line u = elim (strtok b' ' line) [
      | none ↦ ok (true, nothing, u)
      | some (cmd, more) ↦ elim (find_cmd cmd_table cmd) [
        | none ↦ ok (true, error, u)
        | some c ↦ run_cmd c more u
      ]
    ]

    -- The lines that `readline` gives, until it gives none, and the replies.
    pub ui_mainloop : List (List ℕ) → Ui S → Result (List Reply × Ui S)
    ui_mainloop [] u = ok ([], u)
    ui_mainloop (line ∷ lines) u = do
      (go, reply, u') ← run_line line u
      elim go [
        | false ↦ ok (reply ∷ [], u')
        | true ↦ ui_mainloop lines u' >>= λ x. ok (reply ∷ x.0, x.1)
      ]
