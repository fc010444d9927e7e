-- ===== src/Epoch/Sound.antt =====
-- validation/epoch.py: a file whose last line may lack its newline, and a record after it.
-- Reading the complete lines, or all of them, at most one epoch is open.
use prosignal.Prelude.{
  ◌≡◌, refl, sym, ap, ◌∙◌, subst, false, Option, none, some, List, [], ◌∷◌, ◌++◌,
}
use prosignal.Epoch.Defs.{
  Epoch, is_open, Line, unreadable, entry, empty, collect, load_all, last_open, active, Remainder,
  no_text, part_of_record, whole_record, Log, lines_of, append_epoch,
}
use prosignal.Epoch.Records.{IsSingle, read_lines-append, closed-IsSingle}
use prosignal.Epoch.Log.{loaded, cut}

abbrev pub IsSound : Log → Type 0
IsSound log = IsSingle (loaded log.ended) × IsSingle (loaded (lines_of log))

pub with-unreadable :
    (lines : List Line) → IsSingle (loaded lines) → IsSingle (loaded (lines ++ unreadable ∷ []))
with-unreadable lines s = subst IsSingle (sym (read_lines-append lines unreadable empty)) s

active-unreadable : (lines : List Line) → active (lines ++ unreadable ∷ []) ≡ active lines
unfolding active load_all
active-unreadable lines =
    ap (λ l. last_open (collect l.latest l.order)) (read_lines-append lines unreadable empty)

pub with-closed :
    (lines : List Line) (c : Epoch)
    → is_open c ≡ false
    → IsSingle (loaded lines)
    → IsSingle (loaded (lines ++ entry c ∷ []))
with-closed lines c shut s =
    subst IsSingle (sym (read_lines-append lines (entry c) empty))
      (closed-IsSingle c (loaded lines) shut s)

lines-ended : (log : Log) → log.remainder ≡ no_text → lines_of log ≡ log.ended
lines-ended log at = rw at refl

pub append_epoch-IsSound :
    (log : Log) (e : Epoch)
    → IsSound log
    → IsSingle (loaded (lines_of log ++ entry e ∷ []))
    → IsSound (append_epoch log e)
append_epoch-IsSound log e s h = by_remainder log.remainder refl
  where
    by_remainder : (r : Remainder) → log.remainder ≡ r → IsSound (append_epoch log e)
    by_remainder no_text at =
        let lone = subst (λ ls. IsSingle (loaded (ls ++ entry e ∷ []))) (lines-ended log at) h in
        rw at (lone, lone)
    by_remainder part_of_record at = let kept = with-unreadable log.ended s.0 in rw at (kept, kept)
    by_remainder (whole_record f) at =
        let kept = with-unreadable log.ended s.0 in rw at (kept, kept)

pub cut-IsSound :
    (log : Log) (e : Epoch)
    → IsSound log
    → IsSingle (loaded (lines_of log ++ entry e ∷ []))
    → IsSound (record log { remainder = cut log.remainder e })
cut-IsSound log e s h = by_remainder log.remainder refl
  where
    by_remainder :
        (r : Remainder)
        → log.remainder ≡ r
        → IsSound (record log { remainder = cut log.remainder e })
    by_remainder no_text at =
        rw at (s.0, subst (λ ls. IsSingle (loaded (ls ++ entry e ∷ []))) (lines-ended log at) h)
    by_remainder part_of_record at = rw at (s.0, with-unreadable log.ended s.0)
    by_remainder (whole_record f) at = rw at (s.0, with-unreadable log.ended s.0)

-- What is active after a closing record was written, by what stood after the last newline.
abbrev pub active_after : Log → Epoch → Option Epoch
active_after log live = elim log.remainder [
  | no_text ↦ none
  | part_of_record ↦ some live
  | whole_record e ↦ active log.ended
]

pub append_epoch-active :
    (log : Log) (live c : Epoch)
    → active (lines_of log) ≡ some live
    → active (lines_of log ++ entry c ∷ []) ≡ none
    → active (lines_of (append_epoch log c)) ≡ active_after log live
append_epoch-active log live c found none_left = by_remainder log.remainder refl
  where
    by_remainder :
        (r : Remainder)
        → log.remainder ≡ r
        → active (lines_of (append_epoch log c)) ≡ active_after log live
    by_remainder no_text at =
        rw at (subst (λ ls. active (ls ++ entry c ∷ []) ≡ none) (lines-ended log at) none_left)
    by_remainder part_of_record at =
        let torn : lines_of log ≡ log.ended ++ unreadable ∷ [] = rw at refl in
        rw at (ap active (sym torn) ∙ found)
    by_remainder (whole_record e) at = rw at (active-unreadable log.ended)
