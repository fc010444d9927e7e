-- ===== src/Outcomes/Pending.antt =====
-- outcomes.py: `_pending` and `resolve_pending`. The frames are those that the store serves up to
-- the run's date: where it serves none, every signal stays open, as the early returns say. A pair of
-- numbers is a key (run, ticker) or a call (ticker, date).
use prosignal.Prelude.{
  ℕ, ◌+◌, Bool, true, false, not, ◌&&◌, ◌||◌, Option, none, some, List, [], ◌∷◌, ◌++◌, map, ltb,
  ◌==◌, if◌then◌else◌, is_some, filter, elem, Result, ok, err, ◌>>=◌,
}
use prosignal.Prelude.Floats.{FloatOps}
use prosignal.Outcomes.Defs.{Holdings, Session}
use prosignal.Outcomes.Resolve.{
  Rec, Trade, Outcome, still_open, refused, no_stop, resolved, resolve_one,
}

abbrev pub same_pair : ℕ × ℕ → ℕ × ℕ → Bool
same_pair a b = a.0 == b.0 && a.1 == b.1

abbrev pub has_pair : ℕ × ℕ → List (ℕ × ℕ) → Bool
has_pair c [] = false
has_pair c (d ∷ ds) = same_pair c d || has_pair c ds

module _ (F : FloatOps) (isfinite : F.Float → Bool) where
  -- The row of a run
  pub record Run : Type 0 where
    pub run_id : ℕ
    pub date : ℕ
    pub logged_at : ℕ
    pub failed : Bool
    pub signals_generated : List ℕ
    pub stocks_scored : List (Rec F isfinite)

  pub record Item : Type 0 where
    pub run_id : ℕ
    pub date : ℕ
    pub rec : Rec F isfinite

  abbrev pub Latest : Type 0
  Latest = ℕ → Option (ℕ × List ℕ)

  -- `latest[when] = …`, if it is set
  abbrev pub put_run : Run → Option (ℕ × List ℕ) → Option (ℕ × List ℕ)
  put_run row none = some (row.logged_at, row.signals_generated)
  put_run row (some held) =
      if ltb row.logged_at held.0 then some held else some (row.logged_at, row.signals_generated)

  abbrev pub note_run : Run → Latest → Latest
  note_run row latest = if row.failed then latest else λ when.
      if row.date == when then put_run row (latest when) else latest when

  abbrev pub latest_runs : List Run → Latest → Latest
  latest_runs [] latest = latest
  latest_runs (row ∷ rows) latest = latest_runs rows (note_run row latest)

  unfoldable pub book_by_date : List Run → Holdings
  book_by_date rows when = elim (latest_runs rows (λ d. none) when) as (λ x. Option (List ℕ)) [
    | none ↦ none
    | some held ↦ some held.1
  ]

  abbrev pub call_of : Item → ℕ × ℕ
  call_of i = (i.rec.ticker, i.date)

  -- `out` and `seen`
  abbrev pub Found : Type 0
  Found = List Item × List (ℕ × ℕ)

  module _ (resolved_keys resolved_calls : List (ℕ × ℕ)) where
    -- Whether a scored stock is passed over
    abbrev pub skips : Run → Rec F isfinite → List (ℕ × ℕ) → Bool
    skips row rec seen =
        not (elem rec.ticker row.signals_generated)
        || has_pair (row.run_id, rec.ticker) resolved_keys
        || has_pair (rec.ticker, row.date) resolved_calls
        || has_pair (rec.ticker, row.date) seen
        || not (is_some rec.stop)

    unfoldable pub visit : Run → Rec F isfinite → Found → Found
    visit row rec found = if skips row rec found.1 then found else (
      found.0 ++ record { run_id = row.run_id; date = row.date; rec = rec } ∷ [],
      (rec.ticker, row.date) ∷ found.1,
    )

    abbrev pub visit_recs : Run → List (Rec F isfinite) → Found → Found
    visit_recs row [] found = found
    visit_recs row (rec ∷ recs) found = visit_recs row recs (visit row rec found)

    abbrev pub visit_rows : List Run → Found → Found
    visit_rows [] found = found
    visit_rows (row ∷ rows) found = visit_rows rows (visit_recs row row.stocks_scored found)

    unfoldable pub pending : List Run → List Item
    pending rows = (visit_rows rows ([], [])).0

  -- A row of the outcomes file, and whether its exit model is the current one
  pub record Entry : Type 0 where
    pub run_id : ℕ
    pub ticker : ℕ
    pub signal_date : ℕ
    pub current : Bool
    pub trade : Option (Trade F isfinite)

  pub record Tally : Type 0 where
    pub written : List Entry
    pub still_open : ℕ
    pub refused : ℕ

  -- The loop over the pending items; `err` is the `TypeError` of a missing stop
  abbrev pub score : (Item → Outcome F isfinite) → List Item → Tally → Result (Unit {0}) Tally
  score resolve [] t = ok t
  score resolve (i ∷ items) t = elim (resolve i) [
    | still_open ↦ score resolve items (record t { still_open = t.still_open + 1 })
    | refused ↦ score resolve items (record t { refused = t.refused + 1 })
    | no_stop ↦ err tt
    | resolved x ↦ score resolve items (record t {
      written =
          t.written
          ++ record {
            run_id = i.run_id;
            ticker = i.rec.ticker;
            signal_date = i.date;
            current = true;
            trade = some x;
          }
            ∷ [];
    })
  ]

  abbrev pub existing : List Entry → List Entry
  existing outcomes = filter (λ e. e.current) outcomes

  abbrev pub entry_call : Entry → ℕ × ℕ
  entry_call e = (e.ticker, e.signal_date)

  abbrev pub pending_of : List Run → List Entry → List Item
  pending_of rows outcomes =
      pending (map (λ e. (e.run_id, e.ticker)) (existing outcomes))
        (map entry_call (existing outcomes)) rows

  -- The frames of the store by ticker, the rule on targets and the window are arguments.
  abbrev pub resolve_item :
      (ℕ → List (Session F isfinite)) → Bool → ℕ → List Run → Item → Outcome F isfinite
  resolve_item by_symbol use_target max_hold rows i =
      resolve_one F isfinite (book_by_date rows) use_target max_hold i.rec i.date
        (by_symbol i.rec.ticker)

  abbrev pub empty_tally : Tally
  empty_tally = record { written = []; still_open = 0; refused = 0 }

  -- `resolve_pending`: the outcomes file after it, and what it did
  unfoldable pub resolve_pending :
      (ℕ → List (Session F isfinite))
      → Bool
      → ℕ
      → List Run
      → List Entry
      → Result (Unit {0}) (List Entry × Tally)
  resolve_pending by_symbol use_target max_hold rows outcomes = do
    t ←
        score (resolve_item by_symbol use_target max_hold rows) (pending_of rows outcomes)
          empty_tally
    ok (outcomes ++ t.written, t)
