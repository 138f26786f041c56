-- ===== src/Core/Lifetime/Assign.antt =====
-- Assignment never leaves a transport without an alternative, whatever the contained types throw.
use mathlib.Core.Path.{subst₂}
use jmpxx.Prelude.{ℕ, ◌+◌, ◌≡◌, ◌≢◌, ◌⊎◌, inl, inr, none, arith, Bool-cases, Option-cases}
use jmpxx.Core.Outcome.{Outcome, done, threw}
use jmpxx.Core.Transport.Refines.{Result, ok, failed, embed, IsValid, valid_view}
use jmpxx.Core.Lifetime.{Ops, World, copy_assign_from, move_assign_from}

-- The class requires this of both types for its assignments.
abbrev pub NothrowMove : {A : Type 0} → Ops A → Type 0
NothrowMove {A} ops = (a : A) → ops.move a ≢ none

module _ {V E : Type 0} where
  -- What an assignment in the world `w` has done when it ends with `out`.
  pub record IsAssigned (w : World V E) (out : Outcome (Unit {0}) × World V E) : Type 0 where
    pub self_valid : IsValid out.1.self
    pub other_valid : IsValid out.1.other
    pub balanced : out.1.built + w.destroyed ≡ out.1.destroyed + w.built
    pub ends : (out.0 ≡ done tt) ⊎ (out.0 ≡ threw)
    pub taken : out.0 ≡ done tt → out.1.self.has ≡ w.other.has
    pub kept : out.0 ≡ threw → out.1.self.has ≡ w.self.has
    pub unchanged : out.0 ≡ threw → w.self.has ≢ w.other.has → out.1.self ≡ w.self

  abbrev world : Result V E → Result V E → ℕ → ℕ → World V E
  world r q b d = record { self = embed r; other = embed q; built = b; destroyed = d }

  module _ (vs : Ops V) (es : Ops E) (nv : NothrowMove vs) (ne : NothrowMove es) where
    copy_views :
        (r q : Result V E) (b d : ℕ)
        → IsAssigned (world r q b d) (copy_assign_from vs es (world r q b d))
    unfolding copy_assign_from
    copy_views (ok a) (ok c) b d = elim (Bool-cases (vs.copy_assign a c).1) [
      | inl fine ↦ ground arith
      | inr thrown ↦ ground arith
    ]
    copy_views (failed a) (failed c) b d = elim (Bool-cases (es.copy_assign a c).1) [
      | inl fine ↦ ground arith
      | inr thrown ↦ ground arith
    ]
    copy_views (ok a) (failed c) b d = elim (Option-cases (es.copy c)) [
      | inl thrown ↦ ground arith
      | inr (x, copied) ↦ elim (Option-cases (es.move x)) [
        | inl stuck ↦ absurd (ne x stuck)
        | inr (p, moved) ↦ ground arith
      ]
    ]
    copy_views (failed a) (ok c) b d = elim (Option-cases (vs.copy c)) [
      | inl thrown ↦ ground arith
      | inr (x, copied) ↦ elim (Option-cases (vs.move x)) [
        | inl stuck ↦ absurd (nv x stuck)
        | inr (p, moved) ↦ ground arith
      ]
    ]

    move_views :
        (r q : Result V E) (b d : ℕ)
        → IsAssigned (world r q b d) (move_assign_from vs es (world r q b d))
    unfolding move_assign_from
    move_views (ok a) (ok c) b d = elim (Bool-cases (vs.move_assign a c).2) [
      | inl fine ↦ ground arith
      | inr thrown ↦ ground arith
    ]
    move_views (failed a) (failed c) b d = elim (Bool-cases (es.move_assign a c).2) [
      | inl fine ↦ ground arith
      | inr thrown ↦ ground arith
    ]
    move_views (ok a) (failed c) b d = elim (Option-cases (es.move c)) [
      | inl stuck ↦ absurd (ne c stuck)
      | inr (x, taken) ↦ elim (Option-cases (es.move x.0)) [
        | inl stuck ↦ absurd (ne x.0 stuck)
        | inr (p, moved) ↦ ground arith
      ]
    ]
    move_views (failed a) (ok c) b d = elim (Option-cases (vs.move c)) [
      | inl stuck ↦ absurd (nv c stuck)
      | inr (x, taken) ↦ elim (Option-cases (vs.move x.0)) [
        | inl stuck ↦ absurd (nv x.0 stuck)
        | inr (p, moved) ↦ ground arith
      ]
    ]

    -- Copy assignment between two valid transports, whose moves do not throw: it returns or throws,
    -- and either way both transports hold exactly one alternative and no object is leaked or
    -- destroyed twice. If it returns, the target holds the source's kind of alternative; if it
    -- throws, the target keeps its own kind, and where the two kinds differ it is unchanged.
    pub copy_assign_from-IsAssigned :
        (w : World V E) → IsValid w.self → IsValid w.other → IsAssigned w (copy_assign_from vs es w)
    copy_assign_from-IsAssigned w v v' =
        let (r, e) = valid_view w.self v in
        let (q, e') = valid_view w.other v' in
        subst₂
          (λ a b.
            let x = record w { self = a; other = b } in IsAssigned x (copy_assign_from vs es x))
          e e' (copy_views r q w.built w.destroyed)

    -- Move assignment between two valid transports, whose moves do not throw: it returns or throws,
    -- and either way both transports hold exactly one alternative and no object is leaked or
    -- destroyed twice. If it returns, the target holds the source's kind of alternative; if it
    -- throws, the target keeps its own kind, and where the two kinds differ it is unchanged.
    pub move_assign_from-IsAssigned :
        (w : World V E) → IsValid w.self → IsValid w.other → IsAssigned w (move_assign_from vs es w)
    move_assign_from-IsAssigned w v v' =
        let (r, e) = valid_view w.self v in
        let (q, e') = valid_view w.other v' in
        subst₂
          (λ a b.
            let x = record w { self = a; other = b } in IsAssigned x (move_assign_from vs es x))
          e e' (move_views r q w.built w.destroyed)
