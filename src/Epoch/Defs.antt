-- ===== src/Epoch/Defs.antt =====
-- validation/epoch.py: `Identity`, `Epoch`, and the operations on the log file. A text that is only
-- stored and compared is a number; the file is the list of its lines, as `json` reads each.
use prosignal.Prelude.{
  ℕ, Bool, true, false, not, Option, none, some, List, [], ◌∷◌, ◌++◌, ◌==◌, if◌then◌else◌, is_some,
  all, Result, ok, err, ◌>>◌, raise_if,
}

pub data Status : Type 0 where
  open_status void_status superseded_status : Status
  other_status : ℕ → Status

pub record Identity : Type 0 where
  pub code_sha : ℕ
  pub code_dirty : Option Bool
  pub model_sources_sha : ℕ
  pub config_version : ℕ
  pub data_manifest_sha : ℕ
  pub feature_schema_sha : ℕ
  pub universe_policy : ℕ
  pub execution_model : ℕ
  pub commit_sha : ℕ

pub data Field : Type 0 where
  code_sha_field model_sources_sha_field config_version_field data_manifest_sha_field : Field
  feature_schema_sha_field universe_policy_field execution_model_field : Field

pub data Side : Type 0 where
  now the_epoch : Side

pub data Difference : Type 0 where
  params_only : Side → ℕ → Difference
  changed : Field → ℕ → ℕ → Difference
  no_open_epoch : Difference

abbrev pub compare : Field → ℕ → ℕ → List Difference
compare f a b = if a == b then [] else changed f b a ∷ []

-- The seven comparisons, from the epoch's value to the one now.
abbrev pub compare_fields : Identity → Identity → List Difference
compare_fields self other =
    compare code_sha_field self.code_sha other.code_sha
    ++ (compare model_sources_sha_field self.model_sources_sha other.model_sources_sha
        ++ (compare config_version_field self.config_version other.config_version
            ++ (compare data_manifest_sha_field self.data_manifest_sha other.data_manifest_sha
                ++ (compare feature_schema_sha_field self.feature_schema_sha
                      other.feature_schema_sha
                    ++ (compare universe_policy_field self.universe_policy other.universe_policy
                        ++ compare execution_model_field self.execution_model
                            other.execution_model)))))

-- `covers_params_only v` is `"@params-only:" in v`.
unfoldable pub differences : (ℕ → Bool) → Identity → Identity → List Difference
differences covers_params_only self other =
    if covers_params_only self.config_version
    then params_only now self.config_version ∷ []
    else if covers_params_only other.config_version
    then params_only the_epoch other.config_version ∷ []
    else compare_fields self other

pub record Epoch : Type 0 where
  pub epoch_id : ℕ
  pub label : ℕ
  pub opened_on : ℕ
  pub status : Status
  pub identity : Identity
  pub note : ℕ
  pub closed_on : Option ℕ
  pub close_reason : List ℕ
  pub superseded_by : Option ℕ

unfoldable pub is_open : Epoch → Bool
is_open e = elim e.status as (λ s. Bool) [
  | open_status ↦ true
  | void_status ↦ false
  | superseded_status ↦ false
  | other_status t ↦ false
]

-- The commit is not among the fields kept, so it is the default, "unversioned".
unfoldable pub ident : ℕ → Epoch → Identity
ident unversioned e = record e.identity { commit_sha = unversioned }

pub data Line : Type 0 where
  blank unreadable : Line
  entry : Epoch → Line

-- The two dictionaries of `load_all`: `order`, and `latest` by the id.
pub record Loaded : Type 0 where
  pub order : List ℕ
  pub latest : ℕ → Option Epoch

abbrev pub put : Epoch → (ℕ → Option Epoch) → ℕ → Option Epoch
put e latest k = if e.epoch_id == k then some e else latest k

abbrev pub read_line : Line → Loaded → Loaded
read_line blank l = l
read_line unreadable l = l
read_line (entry e) l = record {
  order = if is_some (l.latest e.epoch_id) then l.order else l.order ++ e.epoch_id ∷ [];
  latest = put e l.latest;
}

abbrev pub read_lines : List Line → Loaded → Loaded
read_lines [] l = l
read_lines (line ∷ lines) l = read_lines lines (read_line line l)

abbrev pub empty : Loaded
empty = record { order = []; latest = λ k. none }

-- `[latest[k] for k in order]`; `Records.collect-ids` says that no key is missing.
abbrev pub collect : (ℕ → Option Epoch) → List ℕ → List Epoch
collect latest [] = []
collect latest (k ∷ ks) =
    let rest = collect latest ks in elim (latest k) [ none ↦ rest | some e ↦ e ∷ rest ]

unfoldable pub load_all : List Line → List Epoch
load_all lines = let l = read_lines lines empty in collect l.latest l.order

-- The first open one of `reversed(epochs)`
abbrev pub last_open : List Epoch → Option Epoch
last_open [] = none
last_open (e ∷ es) = elim (last_open es) [
  | some a ↦ some a
  | none ↦ if is_open e then some e else none
]

unfoldable pub active : List Line → Option Epoch
active lines = last_open (load_all lines)

pub data Refusal : Type 0 where
  still_open no_epoch : ℕ → Refusal
  bad_status : Status → Refusal
  no_reason : Refusal

abbrev pub new_epoch : ℕ → ℕ → Identity → ℕ → ℕ → Epoch
new_epoch epoch_id today identity label note = record {
  epoch_id = epoch_id;
  label = label;
  opened_on = today;
  status = open_status;
  identity = identity;
  note = note;
  closed_on = none;
  close_reason = [];
  superseded_by = none;
}

-- What stands after the last newline of the file: nothing, a part of a record, or a whole record.
pub data Remainder : Type 0 where
  no_text part_of_record : Remainder
  whole_record : Epoch → Remainder

-- The file at `EPOCH_LOG`: its lines that end with a newline, and what stands after them.
pub record Log : Type 0 where
  pub ended : List Line
  pub remainder : Remainder

-- What a reader of the file has.
abbrev pub lines_of : Log → List Line
lines_of log = elim log.remainder as (λ x. List Line) [
  | no_text ↦ log.ended
  | part_of_record ↦ log.ended ++ unreadable ∷ []
  | whole_record e ↦ log.ended ++ entry e ∷ []
]

-- A record after other text is on the line of that text, which `json` does not read then.
abbrev pub line_with : Remainder → Epoch → Line
line_with no_text e = entry e
line_with part_of_record e = unreadable
line_with (whole_record f) e = unreadable

-- `_append`: the record and a newline, at the end of the file.
abbrev pub append_epoch : Log → Epoch → Log
append_epoch log e = record {
  ended = log.ended ++ line_with log.remainder e ∷ [];
  remainder = no_text;
}

-- `id_of today fingerprint` is the text `f"{today}-{fingerprint}"`.
unfoldable pub open_epoch :
    (ℕ → Identity → ℕ) → Log → ℕ → Identity → ℕ → ℕ → Bool → Result Refusal (Epoch × Log)
open_epoch id_of log today identity label note allow_while_open =
    let e = new_epoch (id_of today identity) today identity label note in
    if allow_while_open then ok (e, append_epoch log e) else elim (active (lines_of log)) [
      | some live ↦ err (still_open live.epoch_id)
      | none ↦ ok (e, append_epoch log e)
    ]

abbrev pub closes_with : Status → Bool
closes_with void_status = true
closes_with superseded_status = true
closes_with _ = false

abbrev pub find_epoch : ℕ → List Epoch → Option Epoch
find_epoch k [] = none
find_epoch k (e ∷ es) = if e.epoch_id == k then some e else find_epoch k es

abbrev pub closed : ℕ → Status → List ℕ → Option ℕ → Epoch → Epoch
closed today status reason superseded_by e = record e {
  status = status;
  closed_on = some today;
  close_reason = reason;
  superseded_by = superseded_by;
}

-- `is_space` is the test of `str.strip`.
unfoldable pub close_epoch :
    (ℕ → Bool) → Log → ℕ → ℕ → List ℕ → Status → Option ℕ → Result Refusal (Epoch × Log)
close_epoch is_space log today epoch_id reason status superseded_by = do
  raise_if (not (closes_with status)) (bad_status status)
  raise_if (all is_space reason) no_reason
  elim (find_epoch epoch_id (load_all (lines_of log))) [
    | none ↦ err (no_epoch epoch_id)
    | some e ↦ let c = closed today status reason superseded_by e in ok (c, append_epoch log c)
  ]

unfoldable pub drifted_from : (ℕ → Bool) → ℕ → List Line → Identity → Option Epoch × List Difference
drifted_from covers_params_only unversioned lines current = elim (active lines) [
  | none ↦ (none, no_open_epoch ∷ [])
  | some live ↦ (some live, differences covers_params_only current (ident unversioned live))
]
