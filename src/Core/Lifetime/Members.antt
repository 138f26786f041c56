-- ===== src/Core/Lifetime/Members.antt =====
-- Construction, destruction, and the assignments from a value or a failure.
use jmpxx.Prelude.{
  ◌+◌, ◌≡◌, refl, ◌⊎◌, inl, inr, true, false, Option, none, some, arith, Option-cases,
}
use jmpxx.Core.Outcome.{Outcome, done, trap, threw, undefined}
use jmpxx.Core.Transport.{val, err, dead, Transport}
use jmpxx.Core.Transport.Refines.{Result, ok, failed, embed, IsValid, valid_view}
use jmpxx.Core.Lifetime.{
  end_local, Ops, World, destroy, copy_construct, assign_value, assign_failure,
}
use jmpxx.Core.Lifetime.Assign.{NothrowMove, IsAssigned, move_assign_from-IsAssigned}

module _ {V E : Type 0} where
  -- The destructor of a valid transport destroys exactly the one object that is alive.
  pub destroy_lem :
      (w : World V E)
      → IsValid w.self
      → destroy w
        ≡ (done tt, record w { self = record w.self { slot = dead }; destroyed = w.destroyed + 1 })
  unfolding destroy
  destroy_lem w v = let (r, e) = valid_view w.self v in go r e
    where
      go :
          (r : Result V E)
          → embed r ≡ w.self
          → destroy w ≡ (
            done tt,
            record w { self = record w.self { slot = dead }; destroyed = w.destroyed + 1 },
          )
      go (ok a) e = ground arith
      go (failed a) e = ground arith

  module _ (vs : Ops V) (es : Ops E) where
    -- Copy construction from a valid transport either throws, with nothing built, or builds one
    -- object and gives a valid transport with the source's kind of alternative; the source is
    -- unchanged.
    pub copy_construct_lem :
        (w : World V E)
        → IsValid w.other
        → let (o, w') = copy_construct vs es w in
          (((o ≡ threw) × (w'.built ≡ w.built))
            ⊎ ((o ≡ done tt)
                × IsValid w'.self
                × (w'.self.has ≡ w.other.has)
                × (w'.built ≡ w.built + 1)))
          × (w'.other ≡ w.other)
          × (w'.destroyed ≡ w.destroyed)
    unfolding copy_construct
    copy_construct_lem w v = let (q, e) = valid_view w.other v in go q e
      where
        go :
            (q : Result V E)
            → embed q ≡ w.other
            → let (o, w') = copy_construct vs es w in
              (((o ≡ threw) × (w'.built ≡ w.built))
                ⊎ ((o ≡ done tt)
                    × IsValid w'.self
                    × (w'.self.has ≡ w.other.has)
                    × (w'.built ≡ w.built + 1)))
              × (w'.other ≡ w.other)
              × (w'.destroyed ≡ w.destroyed)
        go (ok a) e = elim (Option-cases (vs.copy a)) [
          | inl thrown ↦ ground arith
          | inr (x, copied) ↦ ground arith
        ]
        go (failed a) e = elim (Option-cases (es.copy a)) [
          | inl thrown ↦ ground arith
          | inr (x, copied) ↦ ground arith
        ]

-- An assignment from a temporary whose contained object was built first, up to the temporary's end.
temporary :
    {V E : Type 0} (w : World V E) (t : Transport V E) (p : Outcome (Unit {0}) × World V E)
    → IsAssigned (record w { other = t; built = w.built + 1 }) p
    → IsValid (end_local p).1.self
      × ((end_local p).1.built + w.destroyed ≡ (end_local p).1.destroyed + w.built)
      × ((end_local p).0 ≡ done tt → (end_local p).1.self.has ≡ t.has)
      × (((end_local p).0 ≡ done tt) ⊎ ((end_local p).0 ≡ threw))
temporary w t (done tt, x) h = (h.self_valid, omega (arith, h.balanced), h.taken, h.ends)
temporary w t (threw, x) h = (h.self_valid, omega (arith, h.balanced), h.taken, h.ends)
temporary w t (trap, x) h = absurd (ground (arith, h.ends))
temporary w t (undefined, x) h = absurd (ground (arith, h.ends))

module _ {V E : Type 0} (vs : Ops V) (es : Ops E) (nv : NothrowMove vs) (ne : NothrowMove es)
    (w : World V E) (valid : IsValid w.self) where
  -- Assigning a value or a failure to a valid transport whose contents move without throwing:
  -- if the contained object's construction throws, nothing has changed. Otherwise the assignment
  -- returns or throws, the target is valid, no object is leaked, and if it returns the target holds
  -- the kind of alternative that was assigned.
  pub assign_lem :
      (mv : Option V) (me : Option E)
      → let (o, x) = assign_value vs es mv w in
        let (p, y) = assign_failure vs es me w in
        (IsValid x.self
          × (x.built + w.destroyed ≡ x.destroyed + w.built)
          × (o ≡ done tt → x.self.has ≡ true)
          × ((o ≡ done tt) ⊎ (o ≡ threw)))
        × (IsValid y.self
            × (y.built + w.destroyed ≡ y.destroyed + w.built)
            × (p ≡ done tt → y.self.has ≡ false)
            × ((p ≡ done tt) ⊎ (p ≡ threw)))
        × (mv ≡ none → x ≡ w)
        × (me ≡ none → y ≡ w)
  unfolding assign_value assign_failure
  assign_lem mv me = (value_part mv, failure_part me, value_none mv, failure_none me)
    where
      value_part :
          (mv : Option V)
          → let (o, x) = assign_value vs es mv w in
            (IsValid x.self
              × (x.built + w.destroyed ≡ x.destroyed + w.built)
              × (o ≡ done tt → x.self.has ≡ true)
              × ((o ≡ done tt) ⊎ (o ≡ threw)))
      value_part none = (valid, omega arith, λ h. cc, inr refl)
      value_part (some a) =
          let t : Transport V E = record { slot = val a; has = true } in
          temporary w t _ (
            move_assign_from-IsAssigned vs es nv ne (record w { other = t; built = w.built + 1 })
              valid tt)

      failure_part :
          (me : Option E)
          → let (p, y) = assign_failure vs es me w in
            (IsValid y.self
              × (y.built + w.destroyed ≡ y.destroyed + w.built)
              × (p ≡ done tt → y.self.has ≡ false)
              × ((p ≡ done tt) ⊎ (p ≡ threw)))
      failure_part none = (valid, omega arith, λ h. cc, inr refl)
      failure_part (some a) =
          let t : Transport V E = record { slot = err a; has = false } in
          temporary w t _ (
            move_assign_from-IsAssigned vs es nv ne (record w { other = t; built = w.built + 1 })
              valid tt)

      value_none : (mv : Option V) → mv ≡ none → (assign_value vs es mv w).1 ≡ w
      value_none none h = refl
      value_none (some a) h = cc

      failure_none : (me : Option E) → me ≡ none → (assign_failure vs es me w).1 ≡ w
      failure_none none h = refl
      failure_none (some a) h = cc
