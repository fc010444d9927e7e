-- ===== src/Calendar/Build.antt =====
-- core/calendar.py: what `TradingCalendar(...)` builds.
use prosignal.Prelude.{
  ℕ, ◌≡◌, refl, sym, ap, ◌∙◌, subst, ◌↔◌, inl, inr, Bool, true, false, ◌||◌, List, [], ◌∷◌, ◌++◌,
  map, arith, ◌==◌, Bool-cases, any, elem, IsSetList, ok, err, ◌>>=◌,
}
use prosignal.Calendar.Defs.{
  Value, date, datetime, other, type_error, TradingCalendar, set_add, clean, sorted, new,
  is_session, merged_with,
}
use prosignal.Calendar.Order.{IsAscending, elem-sorted, sorted-IsAscending}

-- The sessions are strictly ascending, and are the members of the set.
pub record IsValid (cal : TradingCalendar) : Type 0 where
  pub ascending : IsAscending cal.sessions
  pub same : (d : ℕ) → elem d cal.session_set ≡ elem d cal.sessions

-- The date that a value stands for.
abbrev pub denotes : ℕ → Value → Bool
denotes d (date e) = d == e
denotes d (datetime e t) = d == e
denotes d other = false

abbrev pub is_other : Value → Bool
is_other other = true
is_other _ = false

clean-IsSetList :
    (acc : List ℕ) (vs : List Value) {s : List ℕ}
    → clean acc vs ≡ ok s
    → IsSetList acc
    → IsSetList s
unfolding clean
clean-IsSetList acc [] h a = ground arith
clean-IsSetList acc (date d ∷ vs) h a = clean-IsSetList (set_add d acc) vs h (ground arith)
clean-IsSetList acc (datetime d t ∷ vs) h a = clean-IsSetList (set_add d acc) vs h (ground arith)
clean-IsSetList acc (other ∷ vs) h a = cc

elem-set_add : (e d : ℕ) (acc : List ℕ) → elem e (set_add d acc) ≡ (e == d || elem e acc)
elem-set_add e d acc = elim (Bool-cases (elem d acc)) [
  | inl h ↦ ground arith
  | inr h ↦ ground arith
]

clean-elem :
    (e : ℕ) (acc : List ℕ) (vs : List Value) {s : List ℕ}
    → clean acc vs ≡ ok s
    → elem e s ≡ (elem e acc || any (denotes e) vs)
unfolding clean
clean-elem e acc [] h = ground arith
clean-elem e acc (date d ∷ vs) h =
    ground (arith, clean-elem e (set_add d acc) vs h, elem-set_add e d acc)
clean-elem e acc (datetime d t ∷ vs) h =
    ground (arith, clean-elem e (set_add d acc) vs h, elem-set_add e d acc)
clean-elem e acc (other ∷ vs) h = cc

clean_total :
    (acc : List ℕ) (vs : List Value)
    → any is_other vs ≡ false
    → (s : List ℕ) × (clean acc vs ≡ ok s)
unfolding clean
clean_total acc [] h = (acc, refl)
clean_total acc (date d ∷ vs) h = clean_total (set_add d acc) vs h
clean_total acc (datetime d t ∷ vs) h = clean_total (set_add d acc) vs h
clean_total acc (other ∷ vs) h = cc

clean_raises :
    (acc : List ℕ) (vs : List Value) → any is_other vs ≡ true → clean acc vs ≡ err type_error
unfolding clean
clean_raises acc [] h = cc
clean_raises acc (date d ∷ vs) h = clean_raises (set_add d acc) vs h
clean_raises acc (datetime d t ∷ vs) h = clean_raises (set_add d acc) vs h
clean_raises acc (other ∷ vs) h = refl

-- A built calendar is valid, keeps the approximate mark, and its sessions are exactly the dates of
-- the values given, datetimes included by their date.
pub new-IsValid :
    (vs : List Value) (approximate : Bool) (cal : TradingCalendar)
    → new vs approximate ≡ ok cal
    → IsValid cal
      × ((d : ℕ) → is_session cal d ≡ any (denotes d) vs)
      × (cal.approximate ≡ approximate)
unfolding new is_session
new-IsValid vs approximate cal h = elim (Bool-cases (any is_other vs)) [
  | inl bad ↦ let e = clean_raises [] vs bad in ground arith
  | inr good ↦
      let (s, e) = clean_total [] vs good in
      let c : record { sessions = sorted s; session_set = s; approximate = approximate } ≡ cal =
        ground arith in
      subst
        (λ k.
          IsValid k
          × ((d : ℕ) → elem d k.session_set ≡ any (denotes d) vs)
          × (k.approximate ≡ approximate))
        c
        (
          record {
            ascending = sorted-IsAscending s (clean-IsSetList [] vs e tt);
            same = λ d. sym (elem-sorted d s);
          },
          λ d. clean-elem d [] vs e,
          refl,
        )
]

-- The build raises TypeError exactly when one of the values is neither a date nor a datetime.
pub new-type_error :
    (vs : List Value) (approximate : Bool)
    → (new vs approximate ≡ err type_error) ↔ (any is_other vs ≡ true)
unfolding new
new-type_error vs approximate = elim (Bool-cases (any is_other vs)) [
  | inl bad ↦ let e = clean_raises [] vs bad in (λ h. bad, λ h. rw (e, ◌>>=◌))
  | inr good ↦ let (s, e) = clean_total [] vs good in (λ h. ground arith, λ h. ground arith)
]

pub new_total :
    (vs : List Value) (approximate : Bool)
    → any is_other vs ≡ false
    → (cal : TradingCalendar) × (new vs approximate ≡ ok cal)
unfolding new
new_total vs approximate h =
    let (s, e) = clean_total [] vs h in
    (record { sessions = sorted s; session_set = s; approximate = approximate }, rw (e, ◌>>=◌))

any-date :
    (d : ℕ) (ds : List ℕ) (vs : List Value)
    → any (denotes d) (map date ds ++ vs) ≡ (elem d ds || any (denotes d) vs)
any-date d [] vs = refl
any-date d (x ∷ ds) vs = ground (arith, any-date d ds vs)

-- Merging keeps the calendar valid, and its sessions are those of the calendar and those given.
pub merged_with-IsValid :
    (cal merged : TradingCalendar) (vs : List Value)
    → IsValid cal
    → merged_with cal vs ≡ ok merged
    → IsValid merged × ((d : ℕ) → is_session merged d ≡ (is_session cal d || any (denotes d) vs))
unfolding merged_with
merged_with-IsValid cal merged vs v h =
    let (valid, members, mark) = new-IsValid (map date cal.sessions ++ vs) false merged h in
    (
      valid,
      λ d.
          unfold is_session in
          members d
          ∙ any-date d cal.sessions vs
          ∙ ap (λ b. b || any (denotes d) vs) (sym (v.same d)),
    )
