-- ===== src/Config/Workers/Command/Laws.antt =====
-- How command lines with quotes around their arguments are split (config/workers.go).
use polka.Base.{ℕ, Text, Bool, true, false, Option, none, some, List, [], ◌∷◌, ◌++◌, All}
use polka.Base.{if◌then◌else◌, eqb, ◌≡◌, ◌≢◌, refl, ap, ◌∙◌, arith, ◌⊎◌, inl, inr, Bool-cases}
use polka.Base.Strings.{has}
use polka.Base.Result.{ok}
use polka.Config.Workers.Command.{Lexer, lex, lex_char, finish, split_worker_command}
use polka.Config.Workers.Command.{is_quote, check_args}
use mathlib.Core.List.{append-nil, append_assoc}

lex-append : (s t : Text) (l : Lexer) → lex (s ++ t) l ≡ lex t (lex s l)
unfolding lex
lex-append [] t l = refl
lex-append (r ∷ s) t l = lex-append s t (lex_char r l)

abbrev at : List Text → Text → Option ℕ → Bool → Lexer
at args current quote in_arg = record {
  args = args;
  current = current;
  quote = quote;
  in_arg = in_arg;
}

lex_char_inside :
    (q r : ℕ) (args : List Text) (cur : Text) (b : Bool)
    → eqb q r ≡ false
    → lex_char r (at args cur (some q) b) ≡ at args (cur ++ r ∷ []) (some q) b
unfolding lex_char
lex_char_inside q r args cur b h = ground arith

has-cons : (q r : ℕ) (s : Text) → has q (r ∷ s) ≡ false → (eqb q r ≡ false) × (has q s ≡ false)
unfolding has
has-cons q r s h = ground arith

-- inside quotes every other character is copied
lex_inside :
    (q : ℕ) (s : Text) (args : List Text) (cur : Text) (b : Bool)
    → has q s ≡ false
    → lex s (at args cur (some q) b) ≡ at args (cur ++ s) (some q) b
unfolding lex
lex_inside q [] args cur b n = rw append-nil
lex_inside q (r ∷ s) args cur b n =
    let (here, rest) = has-cons q r s n in
    rw (lex_char_inside q r args cur b here)
      (lex_inside q s args (cur ++ r ∷ []) b rest ∙ rw append_assoc)

lex_char_open :
    (q : ℕ) (args : List Text)
    → is_quote q ≡ true
    → lex_char q (at args [] none false) ≡ at args [] (some q) true
unfolding lex_char
lex_char_open q args h = ground arith

lex_char_close :
    (q : ℕ) (args : List Text) (cur : Text)
    → lex_char q (at args cur (some q) true) ≡ at args cur none true
unfolding lex_char
lex_char_close q args cur = ground arith

lex_char_blank :
    (args : List Text) (cur : Text)
    → lex_char b' ' (at args cur none true) ≡ at (args ++ cur ∷ []) [] none false
unfolding lex_char
lex_char_blank args cur = refl

-- an argument between quotes
abbrev pub quoted : ℕ → Text → Text
quoted q a = q ∷ a ++ q ∷ []

lex-quoted :
    (q : ℕ) (a : Text) (args : List Text)
    → is_quote q ≡ true
    → has q a ≡ false
    → lex (quoted q a) (at args [] none false) ≡ at args a none true
unfolding lex
lex-quoted q a args h n =
    ap (lex (a ++ q ∷ [])) (lex_char_open q args h)
    ∙ lex-append a (q ∷ []) (at args [] (some q) true)
    ∙ ap (lex (q ∷ [])) (lex_inside q a args [] true n)
    ∙ lex_char_close q args a

-- a quote that the argument does not hold, if it holds at most one of the two
abbrev pub quote_for : Text → ℕ
quote_for a = if has b'\'' a then b'"' else b'\''

-- the arguments, each between quotes, with a space between them
abbrev pub command_line : List Text → Text
command_line [] = []
command_line (a ∷ []) = quoted (quote_for a) a
command_line (a ∷ b ∷ args) = quoted (quote_for a) a ++ b' ' ∷ command_line (b ∷ args)

abbrev pub IsQuotable : Text → Type 0
IsQuotable a = (has b'\'' a ≡ false) ⊎ (has b'"' a ≡ false)

quote_for-is_quote : (a : Text) → is_quote (quote_for a) ≡ true
quote_for-is_quote a = ground arith

quote_for-has : (a : Text) → IsQuotable a → has (quote_for a) a ≡ false
quote_for-has a h = elim (Bool-cases (has b'\'' a)) [ inl e ↦ rw e (ground arith) | inr e ↦ rw e e ]

check_args-append :
    (done args : List Text) (a : Text) → check_args (done ++ a ∷ args) ≡ ok (done ++ a ∷ args)
check_args-append [] args a = refl
check_args-append (d ∷ done) args a = refl

lex-blank :
    (a : Text) (rest : Text) (done : List Text)
    → IsQuotable a
    → lex (quoted (quote_for a) a ++ b' ' ∷ rest) (at done [] none false)
      ≡ lex rest (at (done ++ a ∷ []) [] none false)
unfolding lex
lex-blank a rest done h =
    lex-append (quoted (quote_for a) a) (b' ' ∷ rest) (at done [] none false)
    ∙ ap (lex (b' ' ∷ rest))
        (lex-quoted (quote_for a) a done (quote_for-is_quote a) (quote_for-has a h))
    ∙ ap (lex rest) (lex_char_blank done a)

lex-command_line :
    (command a : Text) (args done : List Text)
    → All IsQuotable (a ∷ args)
    → finish command (lex (command_line (a ∷ args)) (at done [] none false)) ≡ ok (done ++ a ∷ args)
unfolding finish
lex-command_line command a [] done (h, t) =
    ap (finish command) (lex-quoted (quote_for a) a done (quote_for-is_quote a) (quote_for-has a h))
    ∙ check_args-append done [] a
lex-command_line command a (b ∷ args) done (h, hs) =
    ap (finish command) (lex-blank a (command_line (b ∷ args)) done h)
    ∙ lex-command_line command b args (done ++ a ∷ []) hs
    ∙ ap ok (append_assoc done (a ∷ []) (b ∷ args))

-- At least one argument, none of which holds both kinds of quote: written between quotes and with
-- spaces between them, they are split back into the same arguments.
pub split_worker_command-command_line :
    (args : List Text)
    → args ≢ []
    → All IsQuotable args
    → split_worker_command (command_line args) ≡ ok args
unfolding split_worker_command
split_worker_command-command_line [] n h = absurd (n refl)
split_worker_command-command_line (a ∷ args) n h =
    lex-command_line (command_line (a ∷ args)) a args [] h

-- An accepted command has at least one argument.
pub split_worker_command-ne-nil :
    (command : Text) (args : List Text) → split_worker_command command ≡ ok args → args ≢ []
unfolding split_worker_command finish
split_worker_command-ne-nil command args h = ground arith
