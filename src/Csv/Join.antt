-- ===== src/Csv/Join.antt =====
-- src/io/csv_reader.cpp: fields that are joined by commas.
use flower_exchange.Base.{
  ℕ, ◌^◌, ◌<◌, length, ◌≡◌, refl, ap, ◌∙◌, arith, Bool, true, false, not, ◌&&◌, List, [], ◌∷◌, ◌++◌,
  get_elem?, ◌==◌,
}
use flower_exchange.Types.{Text}
use flower_exchange.Csv.{read_next_row, drop_return, field}
use flower_exchange.Csv.Split.{push, split, join, split-other, field-split}

-- No byte that the format gives a meaning: comma, line feed, carriage return.
abbrev pub is_plain : Text → Bool
is_plain [] = true
is_plain (c ∷ text) = not (c == b',') && not (c == 10) && not (c == 13) && is_plain text

abbrev pub all_plain : List Text → Bool
all_plain [] = true
all_plain (f ∷ fs) = is_plain f && all_plain fs

split-plain : (f : Text) → is_plain f ≡ true → split f ≡ f ∷ []
split-plain [] p = refl
split-plain (c ∷ f) p = split-other c f (ground arith) ∙ ap (push c) (split-plain f (ground arith))

split-before : (f rest : Text) → is_plain f ≡ true → split (f ++ b',' ∷ rest) ≡ f ∷ split rest
split-before [] rest p = refl
split-before (c ∷ f) rest p =
    split-other c (f ++ b',' ∷ rest) (ground arith)
    ∙ ap (push c) (split-before f rest (ground arith))

split-join :
    (f : Text) (fs : List Text) → all_plain (f ∷ fs) ≡ true → split (join (f ∷ fs)) ≡ f ∷ fs
split-join f [] p = split-plain f (ground arith)
split-join f (g ∷ fs) p =
    split-before f (join (g ∷ fs)) (ground arith) ∙ ap (λ r. f ∷ r) (split-join g fs (ground arith))

-- A line without a carriage return is kept.
no_return : Text → Bool
no_return [] = true
no_return (c ∷ text) = not (c == 13) && no_return text

drop_return-none : (text : Text) → no_return text ≡ true → drop_return text ≡ text
unfolding drop_return no_return
drop_return-none [] p = refl
drop_return-none (c ∷ []) p = let e : c == 13 ≡ false = ground arith in rw e refl
drop_return-none (c ∷ d ∷ text) p = ap (λ r. c ∷ r) (drop_return-none (d ∷ text) (ground arith))

no_return-append :
    (f rest : Text) → is_plain f ≡ true → no_return rest ≡ true → no_return (f ++ rest) ≡ true
unfolding no_return
no_return-append [] rest p q = q
no_return-append (c ∷ f) rest p q =
    let later = no_return-append f rest (ground arith) q in ground arith

plain-no_return : (f : Text) → is_plain f ≡ true → no_return f ≡ true
unfolding no_return
plain-no_return [] p = refl
plain-no_return (c ∷ f) p = let later = plain-no_return f (ground arith) in ground arith

join-no_return : (fs : List Text) → all_plain fs ≡ true → no_return (join fs) ≡ true
unfolding no_return
join-no_return [] p = refl
join-no_return (f ∷ []) p = plain-no_return f (ground arith)
join-no_return (f ∷ g ∷ fs) p =
    no_return-append f (b',' ∷ join (g ∷ fs)) (ground arith)
      (join-no_return (g ∷ fs) (ground arith))

pub field-join :
    (f : Text) (fs : List Text)
    → all_plain (f ∷ fs) ≡ true
    → length (join (f ∷ fs)) < 2 ^ 31
    → (i : ℕ) → field (read_next_row (join (f ∷ fs))) i ≡ get_elem? (f ∷ fs) i
field-join f fs p small i =
    field-split (join (f ∷ fs)) i small
    ∙ ap (λ line. get_elem? (split line) i)
        (drop_return-none (join (f ∷ fs)) (join-no_return (f ∷ fs) p))
    ∙ ap (λ gs. get_elem? gs i) (split-join f fs p)
