-- ===== src/Ledger/Defs.antt =====
-- ledger.py: `Ledger`, its readers. A date is its ordinal; a text that is only stored or compared
-- is a number. The directory is the list of its `runs-*.jsonl` files in sorted order.
use prosignal.Prelude.{
  ℕ, Bool, true, false, not, ◌&&◌, ◌||◌, Option, none, some, List, [], ◌∷◌, ◌++◌, ltb, ◌==◌,
  if◌then◌else◌, length, filter, elem, Result, ok, err, ◌>>=◌, sort_by, last_of,
}

pub data Mode : Type 0 where
  live replay quarantine : Mode
  other_mode : ℕ → Mode

abbrev pub same_mode : Mode → Mode → Bool
same_mode live live = true
same_mode replay replay = true
same_mode quarantine quarantine = true
same_mode (other_mode a) (other_mode b) = a == b
same_mode _ _ = false

pub data Source : Type 0 where
  recorded : Source
  timestamps timestamps_disagree : Source

pub record Directive : Type 0 where
  pub ticker : Option ℕ
  -- `action.startswith("hold")`
  pub holds : Bool

pub record Row : Type 0 where
  pub run_id : ℕ
  pub trial_id : Option ℕ
  -- `date` and the day of `logged_at`; `none` where they do not parse
  pub date : Option ℕ
  pub logged_day : Option ℕ
  pub logged_at : ℕ
  -- `none` where the field is missing or empty
  pub mode : Option Mode
  pub mode_source : Source
  pub signals_generated : List ℕ
  -- the tickers of `slate_shown`
  pub slate_shown : List ℕ
  pub position_directives : List Directive

pub data Line : Type 0 where
  blank malformed : Line
  entry : Row → Line

abbrev pub File : Type 0
File = List Line

-- `append`, to the file of the row's year
unfoldable pub append : Row → File → File
append row file = file ++ entry row ∷ []

abbrev pub rows_of : File → List Row
rows_of [] = []
rows_of (blank ∷ lines) = rows_of lines
rows_of (malformed ∷ lines) = rows_of lines
rows_of (entry r ∷ lines) = r ∷ rows_of lines

unfoldable pub iter_rows : List File → List Row
iter_rows [] = []
iter_rows (f ∷ fs) = rows_of f ++ iter_rows fs

abbrev pub add_trial : Row → List ℕ → List ℕ
add_trial r seen = elim r.trial_id [ none ↦ seen | some t ↦ if elem t seen then seen else t ∷ seen ]

abbrev pub trials : List Row → List ℕ → List ℕ
trials [] seen = seen
trials (r ∷ rs) seen = trials rs (add_trial r seen)

unfoldable pub trial_count : List File → ℕ
trial_count files = length (trials (iter_rows files) [])

-- `_book_identity`: the book in order of the tickers, and the slate as shown
abbrev pub Identity : Type 0
Identity = List ℕ × List ℕ

unfoldable pub book_identity : Row → Identity
book_identity r = (sort_by ltb r.signals_generated, r.slate_shown)

abbrev pub same_list : List ℕ → List ℕ → Bool
same_list [] [] = true
same_list (x ∷ xs) (y ∷ ys) = x == y && same_list xs ys
same_list _ _ = false

abbrev pub same_identity : Identity → Identity → Bool
same_identity a b = same_list a.0 b.0 && same_list a.1 b.1

-- The elements of `{self._book_identity(r) for r in rows}`
abbrev pub has_identity : Identity → List Identity → Bool
has_identity i [] = false
has_identity i (j ∷ js) = same_identity i j || has_identity i js

abbrev pub identities : List Row → List Identity
identities [] = []
identities (r ∷ rs) =
    let rest = identities rs in
    if has_identity (book_identity r) rest then rest else book_identity r ∷ rest

unfoldable pub disagree : List Row → Bool
disagree rows = ltb 1 (length (identities rows))

-- `str(row.get("mode") or "live")`
abbrev pub mode_of : Row → Mode
mode_of r = elim r.mode [ none ↦ live | some m ↦ m ]

-- `mode is None` reads across every lineage
abbrev pub in_lineage : Option Mode → Row → Bool
in_lineage none r = true
in_lineage (some m) r = same_mode (mode_of r) m

abbrev pub is_on : ℕ → Row → Bool
is_on when r = elim r.date as (λ x. Bool) [ none ↦ false | some d ↦ d == when ]

-- The order by `(logged_at, run_id)`
abbrev pub logged_before : Row → Row → Bool
logged_before a b =
    ltb a.logged_at b.logged_at || (a.logged_at == b.logged_at && ltb a.run_id b.run_id)

unfoldable pub rows_on : List File → ℕ → Option Mode → List Row
rows_on files when mode =
    sort_by logged_before (filter (λ r. is_on when r && in_lineage mode r) (iter_rows files))

unfoldable pub newest_on : List File → ℕ → Option Mode → Option Row
newest_on files when mode = last_of (rows_on files when mode)

abbrev pub is_before : Option ℕ → ℕ → Bool
is_before none d = true
is_before (some limit) d = ltb d limit

-- The date of a row that the scan of `previous_run` does not pass over
abbrev pub candidate_date : Option ℕ → Option Mode → Row → Option ℕ
candidate_date before mode r = elim r.date [
  | none ↦ none
  | some d ↦ if is_before before d && in_lineage mode r then some d else none
]

abbrev pub later_date : Option ℕ → Option ℕ → Option ℕ
later_date acc none = acc
later_date none (some d) = some d
later_date (some a) (some d) = if ltb a d then some d else some a

abbrev pub latest_from : Option ℕ → Option Mode → Option ℕ → List Row → Option ℕ
latest_from before mode acc [] = acc
latest_from before mode acc (r ∷ rs) =
    latest_from before mode (later_date acc (candidate_date before mode r)) rs

pub data LedgerFault : Type 0 where
  -- `LedgerError`, which the code calls unreachable
  no_run_on : ℕ → LedgerFault
  -- `AmbiguousLedgerHistory`
  ambiguous : ℕ → ℕ → LedgerFault

unfoldable pub previous_run : List File → Option ℕ → Option Mode → Result LedgerFault (Option Row)
previous_run files before mode = elim (latest_from before mode none (iter_rows files)) [
  | none ↦ ok none
  | some day ↦ elim (last_of (rows_on files day mode)) [
    | none ↦ err (no_run_on day)
    | some newest ↦
        if disagree (rows_on files day mode)
        then err (ambiguous day (length (rows_on files day mode)))
        else ok (some newest)
  ]
]

-- One turn of the loop over `position_directives`
abbrev pub keep_one : Option ℕ → Bool → List ℕ → List ℕ
keep_one none holds book = book
keep_one (some t) holds book = if not (elem t book) && holds then book ++ t ∷ [] else book

abbrev pub keep_held : List Directive → List ℕ → List ℕ
keep_held [] book = book
keep_held (d ∷ ds) book = keep_held ds (keep_one d.ticker d.holds book)

unfoldable pub open_book : List File → Option ℕ → Option Mode → Result LedgerFault (List ℕ)
open_book files before mode = do
  row ← previous_run files before mode
  ok (elim row [ none ↦ [] | some r ↦ keep_held r.position_directives r.signals_generated ])

unfoldable pub shown_slate : List File → Option ℕ → Option Mode → Result LedgerFault (List ℕ)
shown_slate files before mode = do
  row ← previous_run files before mode
  ok (elim row [ none ↦ [] | some r ↦ r.slate_shown ])

unfoldable pub signals_for : List File → ℕ → List Row
signals_for files ticker = filter (λ r. elem ticker r.signals_generated) (iter_rows files)
