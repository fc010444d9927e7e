-- ===== src/Calendar/Window.antt =====
-- core/calendar.py: the ranges of sessions.
use prosignal.Prelude.{
  ℕ, ◌-◌, ◌≤◌, ◌<◌, min, ◌≡◌, refl, sym, ap, ◌∙◌, inl, inr, Bool, true, false, ◌&&◌, List, [], ◌∷◌,
  arith, ltb, leb, if◌then◌else◌, Bool-cases, length, take, drop, filter, length-drop, count,
  count-length, ok, ◌>>=◌,
}
use prosignal.Prelude.Int.{pos}
use prosignal.Calendar.Defs.{
  TradingCalendar, bisect_left, bisect_right, sessions_between, trailing_window, has_coverage,
}
use prosignal.Calendar.Order.{Above, IsAscending}
use prosignal.Calendar.Search.{bisect_right-count}
use prosignal.Calendar.Build.{IsValid}

filter_none :
    (p : ℕ → Bool) (d : ℕ) (xs : List ℕ)
    → ((e : ℕ) → d < e → p e ≡ false)
    → Above d xs
    → filter p xs ≡ []
filter_none p d [] h a = refl
filter_none p d (x ∷ xs) h a = ground (arith, h x, filter_none p d xs h a.1)

take-bisect_right :
    (xs : List ℕ) (d : ℕ) → IsAscending xs → take (bisect_right xs d) xs ≡ filter (λ s. leb s d) xs
take-bisect_right [] d a = refl
take-bisect_right (x ∷ xs) d a = elim (Bool-cases (leb x d)) [
  | inl h ↦ rw h (ap (λ t. x ∷ t) (take-bisect_right xs d a.1))
  | inr h ↦ rw h (sym (filter_none (λ s. leb s d) x xs (λ e g. ground arith) a.0))
]

take-bisect_left :
    (xs : List ℕ) (d : ℕ) → IsAscending xs → take (bisect_left xs d) xs ≡ filter (λ s. ltb s d) xs
take-bisect_left [] d a = refl
take-bisect_left (x ∷ xs) d a = elim (Bool-cases (ltb x d)) [
  | inl h ↦ rw h (ap (λ t. x ∷ t) (take-bisect_left xs d a.1))
  | inr h ↦ rw h (sym (filter_none (λ s. ltb s d) x xs (λ e g. ground arith) a.0))
]

-- The sessions of a range.
abbrev pub in_range : ℕ → ℕ → Bool → ℕ → Bool
in_range start end inclusive s = leb start s && (if inclusive then leb s end else ltb s end)

filter_ext :
    (p q : ℕ → Bool) (d : ℕ) (xs : List ℕ)
    → ((e : ℕ) → d < e → p e ≡ q e)
    → Above d xs
    → filter p xs ≡ filter q xs
filter_ext p q d [] h a = refl
filter_ext p q d (x ∷ xs) h a = rw (h x a.0, filter_ext p q d xs h a.1)

-- One bisection, and the test that it cuts by.
abbrev bisect_end : Bool → List ℕ → ℕ → ℕ
bisect_end inclusive xs d = if inclusive then bisect_right xs d else bisect_left xs d

abbrev before_end : Bool → ℕ → ℕ → Bool
before_end inclusive d s = if inclusive then leb s d else ltb s d

take-bisect_end :
    (inclusive : Bool) (xs : List ℕ) (d : ℕ)
    → IsAscending xs
    → take (bisect_end inclusive xs d) xs ≡ filter (before_end inclusive d) xs
take-bisect_end true xs d a = take-bisect_right xs d a
take-bisect_end false xs d a = take-bisect_left xs d a

before_end_mono :
    (inclusive : Bool) (end d e : ℕ)
    → d < e
    → before_end inclusive end d ≡ false
    → before_end inclusive end e ≡ false
before_end_mono true end d e h stop = ground arith
before_end_mono false end d e h stop = ground arith

in_range_late :
    (inclusive : Bool) (start end e : ℕ)
    → start ≤ e
    → before_end inclusive end e ≡ in_range start end inclusive e
in_range_late inclusive start end e h = ground arith

drop_range :
    (inclusive : Bool) (start end : ℕ) (xs : List ℕ)
    → IsAscending xs
    → drop (bisect_left xs start) (filter (before_end inclusive end) xs)
      ≡ filter (in_range start end inclusive) xs
drop_range inclusive start end [] a = refl
drop_range inclusive start end (x ∷ xs) a = elim (Bool-cases (ltb x start)) [
  | inl before ↦ elim (Bool-cases (before_end inclusive end x)) [
    | inl keep ↦ ground (arith, drop_range inclusive start end xs a.1)
    | inr stop ↦
        let late = λ (e : ℕ) (h : x < e). before_end_mono inclusive end x e h stop in
        let none_left = filter_none (before_end inclusive end) x xs late a.0 in
        let none_within =
          filter_none (in_range start end inclusive) x xs (λ e h. let l = late e h in ground arith)
            a.0 in
        ground arith
  ]
  | inr after ↦
      let same =
        filter_ext (before_end inclusive end) (in_range start end inclusive) x xs
          (λ e h. in_range_late inclusive start end e (ground arith)) a.0 in
      let here = in_range_late inclusive start end x (ground arith) in ground arith
]

-- On a valid calendar `sessions_between` lists, in order, exactly the sessions from `start` to
-- `end`, with `end` itself when inclusive and without it otherwise.
pub sessions_between-filter :
    (cal : TradingCalendar) (start end : ℕ) (inclusive : Bool)
    → IsValid cal
    → sessions_between cal start end inclusive ≡ filter (in_range start end inclusive) cal.sessions
unfolding sessions_between
sessions_between-filter cal start end inclusive v =
    rw (take-bisect_end inclusive cal.sessions end v.ascending)
      (drop_range inclusive start end cal.sessions v.ascending)

-- A window holds the last sessions up to `end`, as many as asked for or as there are.
pub trailing_window-drop :
    (cal : TradingCalendar) (end n : ℕ)
    → IsValid cal
    → 1 ≤ n
    → let upto = filter (λ s. leb s end) cal.sessions in
      (trailing_window cal end (pos n) ≡ ok (drop (length upto - n) upto))
      × (length (drop (length upto - n) upto) ≡ min n (length upto))
unfolding trailing_window
trailing_window-drop cal end n v h =
    let upto = filter (λ s. leb s end) cal.sessions in
    let cut = take-bisect_right cal.sessions end v.ascending in
    let size : bisect_right cal.sessions end ≡ length upto =
      bisect_right-count cal.sessions end v.ascending
      ∙ count-length (λ s. leb s end) cal.sessions in
    (ground (arith, cut, size), omega (arith, length-drop (length upto - n) upto))

-- `has_coverage` holds exactly when there are as many sessions up to `end` as asked for.
pub has_coverage_iff :
    (cal : TradingCalendar) (end n : ℕ)
    → IsValid cal
    → 1 ≤ n
    → has_coverage cal end (pos n) ≡ ok (leb n (count (λ s. leb s end) cal.sessions))
unfolding has_coverage
has_coverage_iff cal end n v h =
    let upto = filter (λ s. leb s end) cal.sessions in
    let (window, size) = trailing_window-drop cal end n v h in
    rw (window, ◌>>=◌) (ap ok (ground (arith, size, count-length (λ s. leb s end) cal.sessions)))
