-- ===== src/Verify/Reordered.antt =====
-- src/verify.rs: the hypotheses of an explicit proof that names them in another order than theirs.
use metamath_knife.Base.{
  ℕ, ◌+◌, Option, none, some, List, [], ◌∷◌, get_elem?, ◌≡◌, ◌≢◌, refl, arith,
}
use metamath_knife.Diag.{Diagnostic, Outcome, ok, err, panic, or_panic, ◌>>=◌}
use metamath_knife.Scopeck.{Hyp, Frame}
use metamath_knife.Verify.{Oracle, VerifyState, index}
use metamath_knife.Verify.Execute.{process_hyp}
use metamath_knife.Verify.Explicit.{process_hyp_unchecked, process_reordered}

>>=-ne-err :
    {A B : Type 0} (m : Outcome A) (f : A → Outcome B) (d : Diagnostic)
    → ((d : Diagnostic) → m ≢ err d)
    → ((a : A) → f a ≢ err d)
    → (m >>= f) ≢ err d
>>=-ne-err (ok a) f d h k e = k a e
>>=-ne-err (err x) f d h k e = h x refl
>>=-ne-err panic f d h k e = cc (e)

or_panic-ne-err : {A : Type 0} (o : Option A) (d : Diagnostic) → or_panic o ≢ err d
or_panic-ne-err none d e = cc (e)
or_panic-ne-err (some a) d e = cc (e)

module _ (o : Oracle) where
  process_hyp_unchecked-ne-err :
      (st : VerifyState) (fref : Frame) (ix : ℕ) (h : Hyp) (d : Diagnostic)
      → process_hyp_unchecked o st fref ix h ≢ err d
  unfolding process_hyp_unchecked
  process_hyp_unchecked-ne-err st fref ix h d e = by_result (process_hyp st fref ix h) refl
    where
      by_result : (m : Outcome VerifyState) → process_hyp st fref ix h ≡ m → ⊥
      by_result (ok t) f = ground (arith, e, f)
      by_result (err x) f = ground (arith, e, f)
      by_result panic f = ground (arith, e, f)

  -- Where the hypotheses are named in another order than theirs, no entry of the stack is refused: for
  -- every state, frame and assignment of slots, `process_reordered` reports no error, where `process_hyp`
  -- would report a wrong typecode or an essential hypothesis that does not match.
  pub process_reordered-ne-err :
      (st : VerifyState) (fref : Frame) (ix : ℕ) (slots : List (Option ℕ)) (d : Diagnostic)
      → process_reordered o st fref ix slots ≢ err d
  unfolding process_reordered
  process_reordered-ne-err st fref ix [] d e = cc (e)
  process_reordered-ne-err st fref ix (slot ∷ slots) d e =
      >>=-ne-err (or_panic slot) _ d (or_panic-ne-err slot)
        (λ i.
          >>=-ne-err (index fref.hypotheses i) _ d (or_panic-ne-err (get_elem? fref.hypotheses i))
            (λ h.
              >>=-ne-err (process_hyp_unchecked o st fref ix h) _ d
                (process_hyp_unchecked-ne-err st fref ix h)
                (λ st'. process_reordered-ne-err st' fref (ix + 1) slots d)))
        e
