-- ===== src/Config/Workers/Command.antt =====
-- `SplitWorkerCommand` (config/workers.go): a lexer with quotes, as a loop over the characters.
pub mod Laws
use polka.Base.{ℕ, Text, Bool, true, false, Option, none, some, List, [], ◌∷◌, ◌++◌, ◌||◌}
use polka.Base.{if◌then◌else◌, eqb}
use polka.Base.Result.{Result, ok, err}

pub data SplitError : Type 0 where
  unbalanced_quote : Text → SplitError
  empty_command : SplitError

-- the variables of the loop; no quote is open where `quote` is `none`
pub record Lexer : Type 0 where
  pub args : List Text
  pub current : Text
  pub quote : Option ℕ
  pub in_arg : Bool

abbrev pub is_quote : ℕ → Bool
is_quote r = eqb r b'\'' || eqb r b'"'

abbrev pub is_blank : ℕ → Bool
is_blank r = eqb r b' ' || eqb r b'\t' || eqb r b'\n' || eqb r b'\r'

-- a character inside quotes
abbrev pub quoted_char : ℕ → ℕ → Lexer → Lexer
quoted_char q r l =
    if eqb r q then record l { quote = none } else record l { current = l.current ++ r ∷ [] }

-- a character outside quotes
abbrev pub bare_char : ℕ → Lexer → Lexer
bare_char r l =
    if is_quote r
    then record l { quote = some r; in_arg = true }
    else if is_blank r
    then (if l.in_arg
        then record l { args = l.args ++ l.current ∷ []; current = []; in_arg = false }
        else l)
    else record l { current = l.current ++ r ∷ []; in_arg = true }

-- one round of the loop
unfoldable pub lex_char : ℕ → Lexer → Lexer
lex_char r l = elim l.quote [ some q ↦ quoted_char q r l | none ↦ bare_char r l ]

unfoldable pub lex : Text → Lexer → Lexer
unfolding lex_char
lex [] l = l
lex (r ∷ s) l = lex s (lex_char r l)

abbrev pub start : Lexer
start = record { args = []; current = []; quote = none; in_arg = false }

abbrev check_args : List Text → Result SplitError (List Text)
check_args [] = err empty_command
check_args (a ∷ args) = ok (a ∷ args)

-- what follows the loop
unfoldable pub finish : Text → Lexer → Result SplitError (List Text)
finish command l = elim l.quote [
  | some q ↦ err (unbalanced_quote command)
  | none ↦ check_args (if l.in_arg then l.args ++ l.current ∷ [] else l.args)
]

unfoldable pub split_worker_command : Text → Result SplitError (List Text)
unfolding lex finish
split_worker_command command = finish command (lex command start)
