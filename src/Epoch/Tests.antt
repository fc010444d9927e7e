-- ===== src/Epoch/Tests.antt =====
-- validation/epoch.py: runs on a log of one closed and one open epoch.
use prosignal.Prelude.{
  ℕ, ◌+◌, ◌*◌, ◌≡◌, refl, ◌↔◌, Bool, true, false, none, some, [], ◌∷◌, leb, ◌==◌, get_elem?, ok,
}
use prosignal.Epoch.Defs.{
  void_status, superseded_status, Identity, differences, Epoch, is_open, ident, unreadable, entry,
  load_all, active, new_epoch, no_text, part_of_record, Log, lines_of, append_epoch, open_epoch,
  closed, close_epoch, drifted_from,
}
use prosignal.Epoch.Log.{
  empty_log, Write, opens, closes, writes, breaks_off, ends_line, Reach, here, next,
}
use prosignal.Epoch.Single.{open_is_active, close_epoch-active}
use prosignal.Epoch.Drift.{IsComparable, drifted_from-nil}

abbrev id_of : ℕ → Identity → ℕ
id_of today i = today * 100 + i.code_sha

abbrev is_space : ℕ → Bool
is_space c = c == 32

-- Versions below ten cover the parameters only.
abbrev covers_params_only : ℕ → Bool
covers_params_only v = leb v 9

abbrev engine : ℕ → Identity
engine code = record {
  code_sha = code;
  code_dirty = some false;
  model_sources_sha = 4;
  config_version = 12;
  data_manifest_sha = 6;
  feature_schema_sha = 7;
  universe_policy = 1;
  execution_model = 1;
  commit_sha = 99;
}

abbrev first_epoch : Epoch
first_epoch = new_epoch 103 1 (engine 3) 5 0

abbrev first_closed : Epoch
first_closed = closed 2 void_status (98 ∷ 32 ∷ []) none first_epoch

abbrev second_epoch : Epoch
second_epoch = new_epoch 204 2 (engine 4) 6 0

-- Opened, a write broken off, its line ended by hand, and closed.
abbrev torn_log : Log
torn_log = record {
  ended = entry first_epoch ∷ unreadable ∷ entry first_closed ∷ [];
  remainder = no_text;
}

abbrev log : Log
log = append_epoch torn_log second_epoch

abbrev first_log : Log
first_log = append_epoch empty_log first_epoch

abbrev ended_log : Log
ended_log = record { ended = entry first_epoch ∷ unreadable ∷ []; remainder = no_text }

first_opens : Write id_of is_space empty_log first_epoch first_log
unfolding open_epoch active load_all is_open
first_opens = opens 1 (engine 3) 5 0 refl

first_closes : Write id_of is_space ended_log first_closed torn_log
unfolding close_epoch active load_all is_open
first_closes = closes 2 103 (98 ∷ 32 ∷ []) void_status none refl

second_opens : Write id_of is_space torn_log second_epoch log
unfolding open_epoch active load_all is_open
second_opens = opens 2 (engine 4) 6 0 refl

log-Reach : Reach id_of is_space empty_log log
log-Reach =
    let broken = next (next here (writes first_epoch first_opens)) (breaks_off refl) in
    let first_done = next (next broken (ends_line refl)) (writes first_closed first_closes) in
    next first_done (writes second_epoch second_opens)

log-active : active (lines_of log) ≡ some second_epoch
unfolding active load_all is_open
log-active = refl

log_lists : get_elem? (load_all (lines_of log)) 1 ≡ some second_epoch
unfolding load_all
log_lists = refl

second_open : is_open second_epoch ≡ true
unfolding is_open
second_open = refl

open_is_active_example : active (lines_of log) ≡ some second_epoch
open_is_active_example =
    open_is_active id_of is_space log 1 second_epoch log-Reach log_lists second_open

-- A write was broken off in the file, so the closing record is lost.
abbrev broken_log : Log
broken_log = record log { remainder = part_of_record }

broken_log-active : active (lines_of broken_log) ≡ some second_epoch
unfolding active load_all is_open
broken_log-active = refl

close_epoch-active_example :
    (u : Log) × ((close_epoch is_space broken_log 3 204 (98 ∷ []) superseded_status none
        ≡ ok (closed 3 superseded_status (98 ∷ []) none second_epoch, u))
      × (active (lines_of u) ≡ some second_epoch))
close_epoch-active_example =
    close_epoch-active id_of is_space broken_log 3 (98 ∷ []) superseded_status none second_epoch
      (next log-Reach (breaks_off refl)) broken_log-active refl refl

drifted_from-nil_example :
    ((drifted_from covers_params_only 0 (lines_of log) (engine 4)).1 ≡ []) ↔ (
      (live : Epoch) × ((active (lines_of log) ≡ some live)
        × IsComparable covers_params_only (engine 4) live.identity))
drifted_from-nil_example = drifted_from-nil covers_params_only 0 (lines_of log) (engine 4)

no_drift : (drifted_from covers_params_only 0 (lines_of log) (engine 4)).1 ≡ []
unfolding drifted_from active load_all is_open differences ident
no_drift = refl
