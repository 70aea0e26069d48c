-- ===== src/Tests/Consoles.antt =====
-- Commands on the console.
use flower_exchange.Base.{◌≡◌, refl, true, false, [], ◌∷◌}
use flower_exchange.Types.{Text}
use flower_exchange.Application.{run_start, round, rounds, read_line, read_word, asked}
use flower_exchange.Application.Runs.{RunsOn, rounds-RunsOn, Quits, rounds-Quits}

-- "PROCESS a"
abbrev command : Text
command = b'P' ∷ b'R' ∷ b'O' ∷ b'C' ∷ b'E' ∷ b'S' ∷ b'S' ∷ b' ' ∷ b'a' ∷ []

rounds-Quits_example : Quits (command ∷ []) (command ∷ []) false
rounds-Quits_example = rounds-Quits (command ∷ []) (command ∷ []) false refl

rounds-RunsOn_example : RunsOn (command ∷ []) true 2
rounds-RunsOn_example = rounds-RunsOn (command ∷ []) true 2 refl

-- Without its line feed the command is carried out in every round.
three_times :
    (rounds 3 (run_start (command ∷ []) true)).processed
    ≡ (b'a' ∷ []) ∷ (b'a' ∷ []) ∷ (b'a' ∷ []) ∷ []
unfolding rounds round read_line asked read_word
three_times = refl
