-- ===== src/Shell.antt =====
-- The shell of src/testfs.c: splitting a line into a command and its arguments, the table of
-- commands, and the session from mounting to unmounting. `strtok` is modelled with the text it
-- holds; a line of input is a text without NUL. Parsing the arguments of the program and starting
-- the device are left out.
pub mod Commands
pub mod Words
pub mod Bounds
pub mod Refused
use test_fs.Prelude.{
  ℕ, zero, suc, ◌+◌, ◌-◌, Bool, true, false, Option, none, some, List, [], ◌∷◌, ◌++◌, ◌||◌, ◌==◌,
  if◌then◌else◌, length,
}
use Prim.Native.Char.{code}
use Prim.Native.String.{String}
use test_fs.Dir.{Text}
use test_fs.Dir.Show.{text_eq}

abbrev pub codes : String → Text
codes String.[] = []
codes (String.◌∷◌ c s) = code c ∷ codes s

-- MAX_ARGS
abbrev pub max_args : ℕ
max_args = 5

-- The delimiters " \t\n" and "\n".
abbrev pub is_blank : ℕ → Bool
is_blank c = (c == 32) || ((c == 9) || (c == 10))

abbrev pub is_newline : ℕ → Bool
is_newline c = c == 10

-- The delimiters before a token are skipped.
unfoldable pub skip : (ℕ → Bool) → Text → Text
skip delimiter [] = []
skip delimiter (c ∷ s) = let rest = skip delimiter s in if delimiter c then rest else c ∷ s

-- The text up to the next delimiter, and the text behind that one.
unfoldable pub span : (ℕ → Bool) → Text → Text × Text
span delimiter [] = ([], [])
span delimiter (c ∷ s) =
    let (token, rest) = span delimiter s in if delimiter c then ([], s) else (c ∷ token, rest)

-- strtok: a token if there is one, and the text that the next call continues with.
unfoldable pub strtok : (ℕ → Bool) → Text → Option Text × Text
strtok delimiter s = elim (skip delimiter s) [
  | [] ↦ (none, [])
  | c ∷ rest ↦ let (token, after) = span delimiter (c ∷ rest) in (some token, after)
]

-- The loop of `handle_command` over the arguments, with `rounds` left, and the text behind them.
unfoldable pub split_args : (rounds : ℕ) → Text → List Text × Text
split_args zero s = ([], s)
split_args (suc rounds) s =
    let rest = λ (after : Text). split_args rounds after in
    let (token, after) = strtok is_blank s in
    elim token [ none ↦ ([], []) | some t ↦ let (args, end) = rest after in (t ∷ args, end) ]

-- The arguments of `handle_command`, from index 1 on: what is left behind the last one that the
-- command has is one argument more. Where the loop found none, `token` is still the whole text.
unfoldable pub parse_args : (max : ℕ) → Text → List Text
parse_args max s =
    let (args, after) = split_args (max - 1) s in
    let (token, _) = strtok is_newline (elim args [ [] ↦ s | _ ∷ _ ↦ after ]) in
    elim token [ none ↦ args | some t ↦ args ++ t ∷ [] ]

-- The functions of `cmdtable`.
pub data Command : Type 0 where
  help mkfs cd pwd ls lsr create stat rm mkdir cat catr write export owrite import_host checkfs
        benchmark experiment quit :
      Command

pub record Entry : Type 0 where
  pub name : Text
  pub func : Command
  pub max_args : ℕ

abbrev entry : String → Command → ℕ → Entry
entry name func max = record { name = codes name; func = func; max_args = max }

-- cmdtable
abbrev pub cmdtable : List Entry
cmdtable =
    entry "?" help 1
    ∷ entry "mkfs" mkfs 2
    ∷ entry "cd" cd 2
    ∷ entry "pwd" pwd 1
    ∷ entry "ls" ls 2
    ∷ entry "lsr" lsr 2
    ∷ entry "touch" create max_args
    ∷ entry "stat" stat max_args
    ∷ entry "rm" rm 2
    ∷ entry "mkdir" mkdir 2
    ∷ entry "cat" cat max_args
    ∷ entry "catr" catr 2
    ∷ entry "write" write 2
    ∷ entry "export" export 2
    ∷ entry "owrite" owrite 3
    ∷ entry "import" import_host 2
    ∷ entry "checkfs" checkfs 1
    ∷ entry "bench" benchmark max_args
    ∷ entry "run-experiments" experiment max_args
    ∷ entry "quit" quit 1
    ∷ []

-- non_fs_commands
abbrev pub non_fs_commands : List Text
non_fs_commands =
    codes "?" ∷ codes "quit" ∷ codes "mkfs" ∷ codes "bench" ∷ codes "run-experiments" ∷ []

-- The loop of `handle_command` over the table.
unfoldable pub find_entry : Text → List Entry → Option Entry
find_entry name [] = none
find_entry name (e ∷ es) =
    let rest = find_entry name es in if text_eq name e.name then some e else rest

-- The loop of `can_execute_command`.
unfoldable pub any_eq : Text → List Text → Bool
any_eq command [] = false
any_eq command (t ∷ ts) = text_eq t command || any_eq command ts
