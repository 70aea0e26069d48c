-- ===== src/Application.antt =====
-- src/app/application.cpp: the command loop of `Application::run`. The console is the lines that
-- `std::getline` still gives, and whether the last of them lacks its line feed; what `process_file`
-- does is Pipeline, here only the paths it is called with are kept.
pub mod Words
pub mod Runs
use flower_exchange.Base.{
  ℕ, zero, suc, Bool, true, false, not, ◌&&◌, ◌||◌, Option, none, some, List, [], ◌∷◌, ◌++◌, leb,
  ◌==◌, if◌then◌else◌,
}
use flower_exchange.Types.{Text}
use flower_exchange.Types.Names.{eqb_text}

pub record Console : Type 0 where
  pub lines : List Text
  pub unterminated : Bool
  pub user_input : Text
  pub processed : List Text
  pub stopped : Bool

-- "QUIT"
abbrev pub quit_command : Text
quit_command = b'Q' ∷ b'U' ∷ b'I' ∷ b'T' ∷ []

-- "PROCESS"
abbrev pub process_command : Text
process_command = b'P' ∷ b'R' ∷ b'O' ∷ b'C' ∷ b'E' ∷ b'S' ∷ b'S' ∷ []

abbrev pub is_space : ℕ → Bool
is_space c = (c == b' ') || (leb 9 c && leb c 13)

-- `std::getline(input_, user_input)`. A stream that stopped at the end of its last line, without a
-- line feed, is no longer good: then the call leaves the text as it was.
unfoldable pub read_line : Console → Console
read_line s = elim s.lines [
  | line ∷ lines ↦ record s { lines = lines; user_input = line }
  | [] ↦ record s { user_input = if s.unterminated then s.user_input else [] }
]

-- The bytes before the next space, and what is left.
unfoldable pub read_rest : Text → Text × Text
read_rest [] = ([], [])
read_rest (d ∷ text) =
    let (word, rest) = read_rest text in if is_space d then ([], d ∷ text) else (d ∷ word, rest)

-- `input >> word`: the word, and what is left.
unfoldable pub read_word : Text → Text × Text
unfolding read_rest
read_word [] = ([], [])
read_word (c ∷ text) =
    let (word, rest) = read_rest text in
    let later = read_word text in if is_space c then later else (c ∷ word, rest)

abbrev pub is_empty_text : Text → Bool
is_empty_text [] = true
is_empty_text (c ∷ text) = false

-- The path that a line other than QUIT asks for, in a list.
unfoldable pub asked : Text → List Text
unfolding read_word
asked user_input =
    let (command, rest) = read_word user_input in
    let (path, left) = read_word rest in
    if eqb_text command process_command && not (is_empty_text path) then path ∷ [] else []

-- The body of the loop; after `break` nothing happens any more.
unfoldable pub round : Console → Console
unfolding read_line asked
round s =
    let read = read_line s in
    if s.stopped
    then s
    else if eqb_text read.user_input quit_command
    then record read { stopped = true }
    else record read { processed = read.processed ++ asked read.user_input }

unfoldable pub rounds : ℕ → Console → Console
unfolding round
rounds zero s = s
rounds (suc n) s = rounds n (round s)

-- `run` on its input.
abbrev pub run_start : List Text → Bool → Console
run_start lines unterminated = record {
  lines = lines;
  unterminated = unterminated;
  user_input = [];
  processed = [];
  stopped = false;
}
