-- ===== src/Application/Runs.antt =====
-- What the command loop does with its input.
use flower_exchange.Base.{
  ℕ, zero, suc, ◌+◌, ◌≡◌, refl, sym, ap, ◌∙◌, arith, Bool, true, false, ◌||◌, List, [], ◌∷◌, ◌++◌,
  length, if◌then◌else◌,
}
use flower_exchange.Types.{Text}
use flower_exchange.Types.Names.{eqb_text}
use mathlib.Core.List.{append_assoc, append-nil}
use flower_exchange.Application.Words.{commanded, asked-commanded}
use flower_exchange.Application.{Console, read_line, round, rounds, run_start}

-- "QUIT"
abbrev pub quit_line : Text
quit_line = b'Q' ∷ b'U' ∷ b'I' ∷ b'T' ∷ []

abbrev pub has_quit : List Text → Bool
has_quit [] = false
has_quit (line ∷ lines) = eqb_text line quit_line || has_quit lines

-- The paths of the PROCESS commands, in order.
abbrev pub all_commanded : List Text → List Text
all_commanded [] = []
all_commanded (line ∷ lines) = commanded line ++ all_commanded lines

abbrev at : List Text → Bool → Text → List Text → Console
at lines unterminated text done = record {
  lines = lines;
  unterminated = unterminated;
  user_input = text;
  processed = done;
  stopped = false;
}

round-line :
    (line text : Text) (lines done : List Text) (unterminated : Bool)
    → eqb_text line quit_line ≡ false
    → round (at (line ∷ lines) unterminated text done)
      ≡ at lines unterminated line (done ++ commanded line)
unfolding round read_line
round-line line text lines done unterminated other = rw (other, asked-commanded line) refl

-- The line that `user_input` holds behind the last.
abbrev pub last_of : Text → List Text → Text
last_of text [] = text
last_of text (line ∷ lines) = last_of line lines

rounds-lines :
    (lines : List Text) (n : ℕ) (text : Text) (done : List Text) (unterminated : Bool)
    → has_quit lines ≡ false
    → rounds (length lines + n) (at lines unterminated text done)
      ≡ rounds n (at [] unterminated (last_of text lines) (done ++ all_commanded lines))
unfolding rounds
rounds-lines [] n text done unterminated plain =
    let same : 0 + n ≡ n = omega arith in rw (same, append-nil done) refl
rounds-lines (line ∷ lines) n text done unterminated plain =
    let next : suc (length lines) + n ≡ suc (length lines + n) = omega arith in
    ap (λ k. rounds k (at (line ∷ lines) unterminated text done)) next
    ∙ ap (rounds (length lines + n)) (round-line line text lines done unterminated (ground arith))
    ∙ rounds-lines lines n line (done ++ commanded line) unterminated (ground arith)
    ∙ ap (λ d. rounds n (at [] unterminated (last_of line lines) d))
        (append_assoc done (commanded line) (all_commanded lines))

abbrev pub copies : ℕ → List Text → List Text
copies zero ts = []
copies (suc n) ts = ts ++ copies n ts

-- What the loop reads once the input has ended.
abbrev pub left_over : Bool → Text → Text
left_over unterminated text = if unterminated then text else []

round-end :
    (text : Text) (done : List Text) (unterminated : Bool)
    → eqb_text (left_over unterminated text) quit_line ≡ false
    → round (at [] unterminated text done)
      ≡ at [] unterminated
          (left_over unterminated text)
          (done ++ commanded (left_over unterminated text))
unfolding round read_line
round-end text done unterminated other =
    rw (other, asked-commanded (left_over unterminated text)) refl

left_over-again :
    (unterminated : Bool) (text : Text)
    → left_over unterminated (left_over unterminated text) ≡ left_over unterminated text
left_over-again true text = refl
left_over-again false text = refl

rounds-end :
    (n : ℕ) (text : Text) (done : List Text) (unterminated : Bool)
    → eqb_text (left_over unterminated text) quit_line ≡ false
    → ((rounds n (at [] unterminated text done)).stopped ≡ false)
      × ((rounds n (at [] unterminated text done)).processed
          ≡ done ++ copies n (commanded (left_over unterminated text)))
unfolding rounds
rounds-end zero text done unterminated other = (refl, sym (append-nil done))
rounds-end (suc n) text done unterminated other =
    let again = left_over-again unterminated text in
    let (going, paths) =
      rounds-end n (left_over unterminated text) (done ++ commanded (left_over unterminated text))
        unterminated (ap (λ t. eqb_text t quit_line) again ∙ other) in
    (
      ap (λ s. (rounds n s).stopped) (round-end text done unterminated other) ∙ going,
      ap (λ s. (rounds n s).processed) (round-end text done unterminated other)
          ∙ paths
          ∙ ap (λ t. (done ++ commanded (left_over unterminated text)) ++ copies n (commanded t))
              again
          ∙ append_assoc done (commanded (left_over unterminated text))
              (copies n (commanded (left_over unterminated text))),
    )

last-other :
    (text : Text) (lines : List Text)
    → eqb_text text quit_line ≡ false
    → has_quit lines ≡ false
    → eqb_text (last_of text lines) quit_line ≡ false
last-other text [] other plain = other
last-other text (line ∷ lines) other plain = last-other line lines (ground arith) (ground arith)

left_over-other :
    (unterminated : Bool) (text : Text)
    → eqb_text text quit_line ≡ false
    → eqb_text (left_over unterminated text) quit_line ≡ false
left_over-other true text other = other
left_over-other false text other = refl

abbrev pub RunsOn : List Text → Bool → ℕ → Type 0
RunsOn lines unterminated n =
    ((rounds (length lines + n) (run_start lines unterminated)).stopped ≡ false)
    × ((rounds (length lines + n) (run_start lines unterminated)).processed
        ≡ all_commanded lines ++ copies n (commanded (left_over unterminated (last_of [] lines))))

-- On an input without a QUIT line the loop never stops: after its lines, whose PROCESS commands are
-- carried out in order, it goes on for any number of rounds, and where the last line lacks its line
-- feed, each of them carries out that line again.
pub rounds-RunsOn :
    (lines : List Text) (unterminated : Bool) (n : ℕ)
    → has_quit lines ≡ false
    → RunsOn lines unterminated n
rounds-RunsOn lines unterminated n plain =
    let walk = rounds-lines lines n [] [] unterminated plain in
    let (going, paths) =
      rounds-end n (last_of [] lines) (all_commanded lines) unterminated
        (left_over-other unterminated (last_of [] lines) (last-other [] lines refl plain)) in
    (ap (λ s. s.stopped) walk ∙ going, ap (λ s. s.processed) walk ∙ paths)

abbrev pub Quits : List Text → List Text → Bool → Type 0
Quits lines more unterminated =
    ((rounds (length lines + 1) (run_start (lines ++ quit_line ∷ more) unterminated)).stopped
      ≡ true)
    × ((rounds (length lines + 1) (run_start (lines ++ quit_line ∷ more) unterminated)).processed
        ≡ all_commanded lines)

rounds-before :
    (lines more : List Text) (text : Text) (done : List Text) (unterminated : Bool)
    → has_quit lines ≡ false
    → rounds (length lines + 1) (at (lines ++ quit_line ∷ more) unterminated text done)
      ≡ record (at more unterminated quit_line (done ++ all_commanded lines)) { stopped = true }
unfolding rounds round read_line
rounds-before [] more text done unterminated plain = rw (append-nil done) refl
rounds-before (line ∷ lines) more text done unterminated plain =
    let next : suc (length lines) + 1 ≡ suc (length lines + 1) = omega arith in
    ap (λ k. rounds k (at (line ∷ (lines ++ quit_line ∷ more)) unterminated text done)) next
    ∙ ap (rounds (length lines + 1))
        (round-line line text (lines ++ quit_line ∷ more) done unterminated (ground arith))
    ∙ rounds-before lines more line (done ++ commanded line) unterminated (ground arith)
    ∙ ap (λ d. record (at more unterminated quit_line d) { stopped = true })
        (append_assoc done (commanded line) (all_commanded lines))

-- The loop stops at the first QUIT line, having carried out exactly the PROCESS commands before it, in
-- order: the lines whose first word, between blanks, is PROCESS and that have a second word, which is
-- the path.
pub rounds-Quits :
    (lines more : List Text) (unterminated : Bool)
    → has_quit lines ≡ false
    → Quits lines more unterminated
rounds-Quits lines more unterminated plain =
    let run = rounds-before lines more [] [] unterminated plain in
    (ap (λ s. s.stopped) run, ap (λ s. s.processed) run)
