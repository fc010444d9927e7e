-- ===== src/Lib.antt =====
-- ProSignal (src/prosignal): a verification library of the parts of the ranking engine whose
-- behaviour is decided by dates, states, sets and comparisons rather than by statistics.
--
-- The parts and the files that model them (paths from the repository's root):
-- * Calendar, src/prosignal/core/calendar.py: `TradingCalendar`. A date is its ordinal. `Defs` has
--   the class (`new` is `__init__`), `Build` its construction, `Navigate`, `Shift`, `Window` and
--   `Age` the methods, `Fallback` the bootstrap calendar. `bisect` and `sorted` are written out;
--   numpy's `busday_count` is a parameter of `sessions_until`. `from_series_index`, which only
--   adapts pandas values, is not modelled.
-- * Cadence, src/prosignal/cadence.py: `resolve` decides, on the calendar's session list, whether a
--   run date may open positions. Messages are the constructors of `Reason`. `clock_from_config`,
--   which reads the configuration, is not modelled.
-- * Jobs, src/prosignal/jobs.py: the single-flight `JobManager`. The SQLite table is a list of rows,
--   each SQL statement a function on it; the worker threads that are alive are a list. `Steps` is
--   the relation of all that can happen: calls, the statements of `_execute`, thread ends and a
--   restart of the process. A call of the manager is one step: its statements are not interleaved
--   with those of a worker. The schema migration, JSON and logging are not modelled.
-- * Cpcv, src/prosignal/validation/cpcv.py: combinatorial purged cross-validation. What it takes from
--   numpy is the parameter `Numpy`, with the documented behaviour of `sort`, `setdiff1d` and
--   `array_split`; masks are tests on indices.
-- * Gate, src/prosignal/conviction/gate.py: `evaluate`, one function per gate, and
--   `select_at_most_two`, the filling of the slots. What the sibling modules measure, and
--   `assess_pair`, are arguments; the reasons are the constructors of `Failure`. A candidate is an
--   object that `considered` and `buys` share, so what the second slot adds to it is written back by
--   its identity. Notes, disclosures, `runner_up` and `to_record` are not modelled.
-- * Epoch, src/prosignal/validation/epoch.py: the append-only log of experiment epochs. The file is
--   the list of its lines as `json` reads them, and what stands after the last newline: there a write
--   broke off, and the next record is on that line (`append_epoch` is `_append`). `Log` has the steps
--   that extend the file, `Records` what `load_all` holds while it reads. The identity of the
--   running engine and the texts of ids are arguments; digests and git are not modelled.
-- * Book, src/prosignal/book.py: which names `build_book` chooses, and the loop of `_allocate` that
--   divides the capital. `Defs.redistribute` is the loop on fuel: each round that does not end it
--   removes a name, so one more than the names is enough; `Amounts`, `Shares` and `Paid` have the
--   amounts, the equal shares and what remains of the capital. The tradability filter and the rounding to
--   whole shares are not modelled.
-- * Positions, src/prosignal/positions.py: `review_open_position`. The frame is its columns and its
--   rows; dates are ordinals.
-- * Market, src/prosignal/liquidity.py and src/prosignal/indicators/circuit.py: `assess` and
--   `band_state`. A value that is missing or not finite is its own case; `annotate_band_state`, the
--   vectorised form, is not modelled.
-- * Ledger, src/prosignal/ledger.py: the run ledger. The directory is the list of its files, a file
--   the list of its lines; `Repair` is `repair_lineage` with `dry_run=False`. Dates are ordinals. The
--   file system (lock, fsync, backup), `row_from_output` and the other audits are not modelled;
--   `Conflicts` has the dates of `conflicting_dates`.
-- * Registry, src/prosignal/validation/registry.py: the trial registry and the budget of the passes.
--   The file is the list of its lines as `json` reads them; `record_trials` is `record`. `key_for`, a
--   digest, is an argument, and nothing is assumed of it. Reports are not modelled.
-- * Outcomes, src/prosignal/outcomes.py: how a signal ended. `Defs` has the loop of `_resolve_one`,
--   which takes the state of a bar from Market, `Resolve` the rest of it, `Pending` `book_by_date`,
--   `_pending` and `resolve_pending`. The frames that the store serves are an argument. Costs, sizes,
--   stamps and rows whose date does not parse are not modelled.
-- * Exits, src/prosignal/features/exits.py: `resolve_exits` for one symbol: the frames are one list of
--   rows, a mask a test on rows, the `where` of numpy a conditional. `isfinite`, `clip` and `minimum`
--   of numpy are arguments, of which nothing is assumed. The ATR and the moving average of a row are
--   data.
-- * Actions, src/prosignal/data/corporate_actions.py: `build_adjustment_factors` for one symbol, with
--   MAX_PRICE_FACTOR as an argument, and the loop of `dedupe_actions` over the rows of a symbol that
--   adjust prices, sorted by date. The sort of pandas, the neutral rows and the parsing of subjects
--   are not modelled.
--
-- Floats are the parameter `FloatOps` (Prelude/Floats), with the laws of the order where a theorem
-- names them; those hold of floats that are not NaN.
--
-- Integers are Python's, unbounded: a natural number where the code keeps it so, ℤ where a caller
-- may pass a negative one. All loops recur on a list or on a count of
-- days, but the one of Book, which has fuel as said above.
-- Not modelled: the numerical stages (features, scoring, portfolio simulation), the HTTP and command
-- line layers, data ingestion and presentation.
pub mod Prelude
pub mod Actions
pub mod Book
pub mod Cadence
pub mod Calendar
pub mod Cpcv
pub mod Epoch
pub mod Exits
pub mod Gate
pub mod Jobs
pub mod Ledger
pub mod Market
pub mod Outcomes
pub mod Positions
pub mod Registry
