-- ===== src/Application/Words.antt =====
-- What a line of the console asks for, told by its words.
use flower_exchange.Base.{
  ℕ, ◌≡◌, ◌⊎◌, refl, sym, ap, ◌∙◌, arith, inl, inr, Bool, true, false, ◌||◌, ◌&&◌, List, [], ◌∷◌,
  ◌==◌, if◌then◌else◌, Bool-cases,
}
use flower_exchange.Types.{Text}
use flower_exchange.Types.Names.{eqb_text}
use flower_exchange.Application.{is_space, read_rest, read_word, asked, process_command}

-- Tab, line feed, vertical tab, form feed, carriage return, space.
unfoldable is_blank : ℕ → Bool
is_blank c = (c == 9) || (c == 10) || (c == 11) || (c == 12) || (c == 13) || (c == 32)

unfoldable starts_word : Text → Bool
unfolding is_blank
starts_word [] = false
starts_word (c ∷ text) = if is_blank c then false else true

-- The first word grows at its front.
abbrev grow : ℕ → List Text → List Text
grow c [] = (c ∷ []) ∷ []
grow c (word ∷ words) = (c ∷ word) ∷ words

-- The longest runs of bytes that are not blank.
unfoldable words : Text → List Text
unfolding is_blank starts_word
words [] = []
words (c ∷ text) =
    let rest = words text in
    if is_blank c then rest else if starts_word text then grow c rest else (c ∷ []) ∷ rest

-- A line whose first word is PROCESS and that has a second word asks for that file.
abbrev path_named : List Text → List Text
path_named [] = []
path_named (command ∷ []) = []
path_named (command ∷ path ∷ words) =
    if eqb_text command (b'P' ∷ b'R' ∷ b'O' ∷ b'C' ∷ b'E' ∷ b'S' ∷ b'S' ∷ []) then path ∷ [] else []

unfoldable pub commanded : Text → List Text
unfolding words
commanded line = path_named (words line)

is_blank-is_space : (c : ℕ) → is_blank c ≡ is_space c
unfolding is_blank
is_blank-is_space c = ground arith

words-space : (c : ℕ) (text : Text) → is_space c ≡ true → words (c ∷ text) ≡ words text
unfolding words
words-space c text e = let blank : is_blank c ≡ true = is_blank-is_space c ∙ e in rw blank refl

words-before :
    (c d : ℕ) (text : Text)
    → is_space c ≡ false
    → is_space d ≡ true
    → words (c ∷ d ∷ text) ≡ (c ∷ []) ∷ words (d ∷ text)
unfolding words starts_word
words-before c d text e f =
    let filled : is_blank c ≡ false = is_blank-is_space c ∙ e in
    let blank : is_blank d ≡ true = is_blank-is_space d ∙ f in rw (filled, blank) refl

words-grow :
    (c d : ℕ) (text : Text)
    → is_space c ≡ false
    → is_space d ≡ false
    → words (c ∷ d ∷ text) ≡ grow c (words (d ∷ text))
unfolding words starts_word
words-grow c d text e f =
    let filled : is_blank c ≡ false = is_blank-is_space c ∙ e in
    let other : is_blank d ≡ false = is_blank-is_space d ∙ f in rw (filled, other) refl

words-last : (c : ℕ) → is_space c ≡ false → words (c ∷ []) ≡ (c ∷ []) ∷ []
unfolding words starts_word
words-last c e = let filled : is_blank c ≡ false = is_blank-is_space c ∙ e in rw filled refl

read_rest-space : (d : ℕ) (text : Text) → is_space d ≡ true → read_rest (d ∷ text) ≡ ([], d ∷ text)
unfolding read_rest
read_rest-space d text e = rw e refl

read_rest-other :
    (d : ℕ) (text : Text)
    → is_space d ≡ false
    → read_rest (d ∷ text) ≡ (d ∷ (read_rest text).0, (read_rest text).1)
unfolding read_rest
read_rest-other d text e = rw e refl

-- The first word, and the words of what is left.
abbrev first_of : ℕ → Text × Text → List Text
first_of c read = (c ∷ read.0) ∷ words read.1

words-rest :
    (c : ℕ) (text : Text) → is_space c ≡ false → words (c ∷ text) ≡ first_of c (read_rest text)
unfolding read_rest words
words-rest c [] e = words-last c e
words-rest c (d ∷ text) e = elim (Bool-cases (is_space d)) [
  | inl gap ↦ words-before c d text e gap ∙ sym (ap (first_of c) (read_rest-space d text gap))
  | inr same ↦
      words-grow c d text e same
      ∙ ap (grow c) (words-rest d text same)
      ∙ sym (ap (first_of c) (read_rest-other d text same))
]

-- What `read_word` gives: no word, or the first.
abbrev Reads : Text → Type 0
Reads text =
    ((read_word text ≡ ([], [])) × (words text ≡ []))
    ⊎ ((c : ℕ) × (word : Text) × (rest : Text) × (read_word text ≡ (c ∷ word, rest))
        × (words text ≡ (c ∷ word) ∷ words rest))

read_word-Reads : (text : Text) → Reads text
unfolding read_word words
read_word-Reads [] = inl (refl, refl)
read_word-Reads (c ∷ text) = elim (Bool-cases (is_space c)) [
  | inl gap ↦ elim (read_word-Reads text) [
    | inl (read, same) ↦ inl (rw gap read, words-space c text gap ∙ same)
    | inr (d, word, rest, read, same) ↦
        inr (d, word, rest, rw gap read, words-space c text gap ∙ same)
  ]
  | inr filled ↦
      inr (c, (read_rest text).0, (read_rest text).1, rw filled refl, words-rest c text filled)
]

no_path : (b : Bool) (paths : List Text) → (if b && false then paths else []) ≡ []
no_path true paths = refl
no_path false paths = refl

one_path :
    (b : Bool) (paths : List Text) → (if b && true then paths else []) ≡ (if b then paths else [])
one_path true paths = refl
one_path false paths = refl

pub asked-commanded : (line : Text) → asked line ≡ commanded line
unfolding asked commanded
asked-commanded line = elim (read_word-Reads line) [
  | inl (read, same) ↦ rw (read, same) refl
  | inr (c, word, rest, read, same) ↦ elim (read_word-Reads rest) [
    | inl (read', same') ↦
        rw (read, same, read', same') (no_path (eqb_text (c ∷ word) process_command) ([] ∷ []))
    | inr (d, path, left, read', same') ↦
        rw (read, same, read', same')
          (one_path (eqb_text (c ∷ word) process_command) ((d ∷ path) ∷ []))
  ]
]
