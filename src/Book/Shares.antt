-- ===== src/Book/Shares.antt =====
-- book.py: equal shares for names that have nothing yet.
use prosignal.Prelude.{
  ℕ, ◌≡◌, refl, sym, ap, ◌∙◌, subst, false, some, List, [], ◌∷◌, arith, All, elem, IsSetList,
}
use prosignal.Prelude.Floats.{FloatOps}
use prosignal.Book.Defs.{set_amount, amount, amount_or_zero, share_out}
use prosignal.Book.Amounts.{
  elem-head, elem-tail, elem-distinct, IsWithin, IsFresh, set_amount-IsWithin, amount-set_amount,
  amount-set_amount_same,
}

module _ (F : FloatOps) where
  open F use {Float, lt, add, ratio}

  module _ (add_zero : (x : Float) → add (ratio 0 1) x ≡ x) where
    pub share_out-IsWithin :
        (caps : ℕ → Float) (share : Float) (ts : List ℕ) (amounts : List (ℕ × Float))
        → IsSetList ts
        → IsFresh F ts amounts
        → All (λ t. lt (caps t) share ≡ false) ts
        → IsWithin F caps amounts
        → IsWithin F caps (share_out F share ts amounts)
    share_out-IsWithin caps share [] amounts s f h w = w
    share_out-IsWithin caps share (t ∷ ts) amounts s f h w =
        let none_yet = f t (elem-head t ts) in
        let given : add (amount_or_zero F t amounts) share ≡ share =
          rw (none_yet, amount_or_zero) (add_zero share) in
        let fits = subst (λ x. lt (caps t) x ≡ false) (sym given) h.0 in
        share_out-IsWithin caps share ts
          (set_amount F t (add (amount_or_zero F t amounts) share) amounts) s.1
          (λ u m.
            amount-set_amount F u t (add (amount_or_zero F t amounts) share) amounts
              (elem-distinct u t ts m s.0)
            ∙ f u (elem-tail u t ts m))
          h.1 (set_amount-IsWithin F caps t (add (amount_or_zero F t amounts) share) amounts fits w)

    abbrev pub given_amount : Float → ℕ → List (ℕ × Float) → Float
    given_amount share t amounts = add (amount_or_zero F t amounts) share

    pub amount-share_out_other :
        (share : Float) (u : ℕ) (ts : List ℕ) (amounts : List (ℕ × Float))
        → elem u ts ≡ false
        → amount F u (share_out F share ts amounts) ≡ amount F u amounts
    amount-share_out_other share u [] amounts h = refl
    amount-share_out_other share u (t ∷ ts) amounts h =
        let x = given_amount share t amounts in
        amount-share_out_other share u ts (set_amount F t x amounts) (ground arith)
        ∙ amount-set_amount F u t x amounts (ground arith)

    pub share_out-shares :
        (share : Float) (ts : List ℕ) (amounts : List (ℕ × Float))
        → IsSetList ts
        → IsFresh F ts amounts
        → All (λ t. amount F t (share_out F share ts amounts) ≡ some share) ts
    share_out-shares share [] amounts s f = tt
    share_out-shares share (t ∷ ts) amounts s f =
        let x = given_amount share t amounts in
        let none_yet = f t (elem-head t ts) in
        let given : add (amount_or_zero F t amounts) share ≡ share =
          rw (none_yet, amount_or_zero) (add_zero share) in
        (
          amount-share_out_other share t ts (set_amount F t x amounts) s.0
              ∙ amount-set_amount_same F t x amounts
              ∙ ap (λ y. some y) given,
          share_out-shares share ts (set_amount F t x amounts) s.1 (λ u m.
              amount-set_amount F u t x amounts (elem-distinct u t ts m s.0)
              ∙ f u (elem-tail u t ts m)),
        )
