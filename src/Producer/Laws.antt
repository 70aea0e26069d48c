-- ===== src/Producer/Laws.antt =====
-- What `produce` pushes, as one list.
use flower_exchange.Base.{
  ℕ, suc, ◌+◌, ◌-◌, ◌%◌, ◌^◌, ◌<◌, ◌≡◌, refl, sym, ap, ◌∙◌, arith, inl, inr, Bool, true, false,
  none, some, List, [], ◌∷◌, ◌++◌, length, ltb, if◌then◌else◌, Bool-cases, Option-cases,
}
use flower_exchange.Doubles.{Doubles}
use flower_exchange.Messages.{InboundOrderMsg}
use flower_exchange.Csv.{CsvRow, size}
use mathlib.Core.List.{append_assoc, append-nil}
use flower_exchange.Producer.{
  read_fields, end_message, Producing, produce_row, produce_rows, produce,
}

-- The rows with five fields at least.
abbrev pub long_rows : List CsvRow → List CsvRow
long_rows [] = []
long_rows (row ∷ rows) = if ltb (size row) 5 then long_rows rows else row ∷ long_rows rows

-- Those behind the header.
abbrev pub data_rows : List CsvRow → List CsvRow
data_rows [] = []
data_rows (row ∷ rows) = long_rows rows

module _ (doubles : Doubles) where
  -- The messages of the rows up to the first that is not readable, numbered from `n`.
  abbrev pub readable : ℕ → List CsvRow → List (InboundOrderMsg doubles)
  readable n [] = []
  readable n (row ∷ rows) = elim (read_fields doubles row) [
    | none ↦ []
    | some message ↦ record message { end_of_stream = false; seq = n } ∷ readable (suc n) rows
  ]

  abbrev pub all_readable : List CsvRow → Bool
  all_readable [] = true
  all_readable (row ∷ rows) = elim (read_fields doubles row) [
    | none ↦ false
    | some message ↦ all_readable rows
  ]

  abbrev pub Numbered : ℕ → List (InboundOrderMsg doubles) → Type 0
  Numbered n [] = Unit {0}
  Numbered n (m ∷ ms) = (m.seq ≡ n) × (m.end_of_stream ≡ false) × Numbered (suc n) ms

  readable-none :
      (n : ℕ) (row : CsvRow) (rows : List CsvRow)
      → read_fields doubles row ≡ none
      → readable n (row ∷ rows) ≡ []
  readable-none n row rows e = rw (readable, e) refl

  readable-some :
      (n : ℕ) (row : CsvRow) (rows : List CsvRow) (m : InboundOrderMsg doubles)
      → read_fields doubles row ≡ some m
      → readable n (row ∷ rows)
        ≡ record m { end_of_stream = false; seq = n } ∷ readable (suc n) rows
  readable-some n row rows m e = rw (readable, e) refl

  readable-Numbered : (n : ℕ) (rows : List CsvRow) → Numbered n (readable n rows)
  readable-Numbered n [] = tt
  readable-Numbered n (row ∷ rows) = elim (Option-cases (read_fields doubles row)) [
    | inl bad ↦ rw (readable-none n row rows bad) tt
    | inr (m, e) ↦ rw (readable-some n row rows m e) (refl, refl, readable-Numbered (suc n) rows)
  ]

  abbrev at : ℕ → ℕ → List (InboundOrderMsg doubles) → Producing doubles
  at n k pushed = record { first_row = false; sequence = n; produced = k; pushed = pushed }

  -- The state behind the messages `ms`.
  abbrev after :
      ℕ → ℕ → List (InboundOrderMsg doubles) → List (InboundOrderMsg doubles) → Producing doubles
  after n k pushed ms = at (n + length ms) (k + length ms) (pushed ++ ms)

  after-nil :
      (n k : ℕ) (pushed : List (InboundOrderMsg doubles)) → at n k pushed ≡ after n k pushed []
  after-nil n k pushed =
      let same : n + 0 ≡ n = omega arith in
      let also : k + 0 ≡ k = omega arith in rw (same, also, append-nil pushed) refl

  after-cons :
      (n k : ℕ) (pushed ms : List (InboundOrderMsg doubles)) (m : InboundOrderMsg doubles)
      → after (suc n) (suc k) (pushed ++ m ∷ []) ms ≡ after n k pushed (m ∷ ms)
  after-cons n k pushed ms m =
      let same : suc n + length ms ≡ n + suc (length ms) = omega arith in
      let also : suc k + length ms ≡ k + suc (length ms) = omega arith in
      rw (same, also, append_assoc pushed (m ∷ []) ms) refl

  produce_row-short :
      (row : CsvRow) (n k : ℕ) (pushed : List (InboundOrderMsg doubles))
      → ltb (size row) 5 ≡ true
      → produce_row doubles row (at n k pushed) ≡ some (at n k pushed)
  unfolding produce_row
  produce_row-short row n k pushed short = rw short refl

  produce_row-none :
      (row : CsvRow) (n k : ℕ) (pushed : List (InboundOrderMsg doubles))
      → ltb (size row) 5 ≡ false
      → read_fields doubles row ≡ none
      → produce_row doubles row (at n k pushed) ≡ none
  unfolding produce_row
  produce_row-none row n k pushed long bad = rw (long, bad) refl

  produce_row-some :
      (row : CsvRow) (n k : ℕ) (pushed : List (InboundOrderMsg doubles))
      (m : InboundOrderMsg doubles)
      → ltb (size row) 5 ≡ false
      → read_fields doubles row ≡ some m
      → n + 1 < 2 ^ 64
      → k + 1 < 2 ^ 64
      → produce_row doubles row (at n k pushed)
        ≡ some (at (suc n) (suc k) (pushed ++ record m { end_of_stream = false; seq = n } ∷ []))
  unfolding produce_row
  produce_row-some row n k pushed m long e small few =
      let next : (n + 1) % 2 ^ 64 ≡ suc n = omega (arith, small) in
      let another : (k + 1) % 2 ^ 64 ≡ suc k = omega (arith, few) in
      rw (long, e, next, another) refl

  long_rows-short :
      (row : CsvRow) (rows : List CsvRow)
      → ltb (size row) 5 ≡ true
      → long_rows (row ∷ rows) ≡ long_rows rows
  long_rows-short row rows e = rw e refl

  long_rows-long :
      (row : CsvRow) (rows : List CsvRow)
      → ltb (size row) 5 ≡ false
      → long_rows (row ∷ rows) ≡ row ∷ long_rows rows
  long_rows-long row rows e = rw e refl

  produce_rows-after :
      (rows : List CsvRow) (n k : ℕ) (pushed : List (InboundOrderMsg doubles))
      → n + length rows < 2 ^ 64
      → k + length rows < 2 ^ 64
      → produce_rows doubles rows (at n k pushed)
        ≡ (after n k pushed (readable n (long_rows rows)), all_readable (long_rows rows))
  unfolding produce_rows
  produce_rows-after [] n k pushed small few = ap (λ s. (s, true)) (after-nil n k pushed)
  produce_rows-after (row ∷ rows) n k pushed small few = elim (Bool-cases (ltb (size row) 5)) [
    | inl short ↦
        rw (long_rows-short row rows short, produce_rows, produce_row-short row n k pushed short)
          (produce_rows-after rows n k pushed (omega (arith, small)) (omega (arith, few)))
    | inr long ↦ elim (Option-cases (read_fields doubles row)) [
      | inl bad ↦
          rw
            (
              long_rows-long row rows long,
              produce_rows,
              produce_row-none row n k pushed long bad,
              readable-none n row (long_rows rows) bad,
              all_readable,
              bad,
            )
            (ap (λ s. (s, false)) (after-nil n k pushed))
      | inr (m, e) ↦
          let sent : InboundOrderMsg doubles = record m { end_of_stream = false; seq = n } in
          let later =
            produce_rows-after rows (suc n) (suc k) (pushed ++ sent ∷ []) (omega (arith, small))
              (omega (arith, few)) in
          rw
            (
              long_rows-long row rows long,
              produce_rows,
              produce_row-some row n k pushed m long e (omega (arith, small)) (omega (arith, few)),
              readable-some n row (long_rows rows) m e,
              all_readable,
              e,
            )
            (later
              ∙ ap (λ s. (s, all_readable (long_rows rows)))
                  (after-cons n k pushed (readable (suc n) (long_rows rows)) sent))
    ]
  ]

  -- The messages of a file.
  abbrev pub messages_of : List CsvRow → List (InboundOrderMsg doubles)
  messages_of rows = readable 1 (data_rows rows)

  abbrev pub ends : List CsvRow → Bool
  ends rows = all_readable (data_rows rows)

  abbrev pub Produces : List CsvRow → Type 0
  Produces rows =
      ((produce doubles (some rows)).messages
        ≡ messages_of rows ++ (if ends rows then end_message doubles ∷ [] else []))
      × ((produce doubles (some rows)).producer_done ≡ ends rows)
      × ((produce doubles (some rows)).produced_orders
          ≡ (if ends rows then length (messages_of rows) else 0))
      × Numbered 1 (messages_of rows)

  start_rows :
      (row : CsvRow) (rows : List CsvRow)
      → length rows < 2 ^ 64 - 1
      → produce_rows doubles
          (row ∷ rows)
          (record { first_row = true; sequence = 1; produced = 0; pushed = [] })
        ≡ (after 1 0 [] (readable 1 (long_rows rows)), all_readable (long_rows rows))
  unfolding produce_rows produce_row
  start_rows row rows small =
      produce_rows-after rows 1 0 [] (omega (arith, small)) (omega (arith, small))

  -- Of a file of fewer than 2 ^ 64 rows: one message for each row behind the header with five fields
  -- or more, up to the first that is not readable, numbered 1, 2, and so on; then one end of stream,
  -- and the producer is done with the count of the messages, if and only if all those rows are
  -- readable.
  pub produce-Produces : (rows : List CsvRow) → length rows < 2 ^ 64 → Produces rows
  unfolding produce
  produce-Produces [] small = (refl, refl, refl, tt)
  produce-Produces (row ∷ rows) small =
      let run = start_rows row rows (omega (arith, small)) in
      elim (Bool-cases (all_readable (long_rows rows))) [
        | inl all ↦ rw (run, all) (refl, refl, omega arith, readable-Numbered 1 (long_rows rows))
        | inr bad ↦
            rw (run, bad)
              (
                sym (append-nil (readable 1 (long_rows rows))),
                refl,
                refl,
                readable-Numbered 1 (long_rows rows),
              )
      ]
