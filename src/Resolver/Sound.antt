-- ===== src/Resolver/Sound.antt =====
-- The resolver of reference_app/src/resolve.hpp against what its table means.
use jmpxx.Prelude.{
  ℕ, zero, suc, ◌+◌, ◌≤◌, ◌<◌, ◌≡◌, refl, sym, ap, ◌∙◌, inl, inr, true, false, Option, none, some,
  List, [], ◌∷◌, arith, ltb, Bool-cases, length,
}
use jmpxx.Prelude.Int.{pos}
use jmpxx.Prelude.Text.{String, same, same_self}
use jmpxx.Core.Error.{Error}
use jmpxx.Unwind.{World, Arm, modify, gets}
use jmpxx.Unwind.Escape.{Payload, IsCarried, frame}
use jmpxx.Unwind.Triple.{
  Triple, Landed, gets-Triple, modify-Triple, given-Triple, before-Triple, after-Triple, if-Triple,
  option-Triple, bind-Triple, frame-Triple, scope-Landed,
}
use jmpxx.Resolver.{
  Kind, Keys, count, erase, insert, mark, unmark, max_depth, interpolate, under_mark, resolve,
  resolve_key,
}
use jmpxx.Resolver.Meaning.{
  Mentions, Unclosed, Means, means, Expands, Chain, chain_start, chain_step, Blame, blame_missing,
  blame_cycle, blame_depth, blame_syntax,
}
use jmpxx.Resolver.Interpolate.{At, Escapes, Finds, eject_with-Triple, interpolate-Triple}

erase-absent : (key : String) (ks : List String) → count key ks ≡ false → erase key ks ≡ ks
erase-absent key [] h = refl
erase-absent key (k ∷ ks) h = elim (Bool-cases (same k key)) [
  | inl met ↦ ground (arith, h, met)
  | inr other ↦ rw other (ap (λ l. k ∷ l) (erase-absent key ks (ground (arith, h, other))))
]

module _ (p : Payload Error) (lookup : String → Option String) (start : String) where
  module _ (keys : List String) (key : String) (depth : ℕ) (chain : Chain lookup start keys key)
      (deep : depth ≡ length keys) where
    missing-Blame :
        lookup key ≡ none → Blame lookup start (record { code = pos 1; domain = pos depth }) key
    missing-Blame h = rw deep (blame_missing keys key chain h)

    cycle-Blame :
        count key keys ≡ true → Blame lookup start (record { code = pos 2; domain = pos depth }) key
    cycle-Blame h = rw deep (blame_cycle keys key chain h)

    depth-Blame :
        max_depth < depth → Blame lookup start (record { code = pos 3; domain = pos depth }) key
    depth-Blame h = rw deep (blame_depth keys key chain (omega (arith, h, deep)))

    syntax-Blame :
        (text : String)
        → lookup key ≡ some text
        → Unclosed text
        → Blame lookup start (record { code = pos 4; domain = pos depth }) text
    syntax-Blame text h u = rw deep (blame_syntax keys key text chain h u)

    under_mark-Triple :
        (next : String → Arm Keys String)
        → count key keys ≡ false
        → ((raw ref : String)
            → lookup key ≡ some raw
            → Mentions raw ref
            → Triple p
                (Escapes p lookup start (key ∷ keys))
                (At p lookup start (key ∷ keys))
                (Finds p lookup start (key ∷ keys) ref)
                (next ref))
        → Triple p
            (Escapes p lookup start (key ∷ keys))
            (At p lookup start keys)
            (Finds p lookup start (key ∷ keys) key)
            (under_mark p lookup next key depth)
    under_mark-Triple next fresh hnext =
        bind-Triple p R (At p lookup start keys) (λ _. At p lookup start (key ∷ keys)) Q
          (modify (mark key)) _
          (modify-Triple p R (At p lookup start keys) (At p lookup start (key ∷ keys)) (mark key)
            (λ s h. ap (insert key) h ∙ (rw fresh refl)))
          (λ _.
            option-Triple p R (At p lookup start (key ∷ keys)) Q (lookup key) _ _
              (λ absent.
                eject_with-Triple p lookup start (key ∷ keys) Q Kind.missing key depth
                  (missing-Blame absent))
              (λ raw found.
                after-Triple p R (At p lookup start (key ∷ keys)) Q
                  (λ v s. At p lookup start (key ∷ keys) s × Expands lookup raw v)
                  (interpolate p lookup next raw depth) (λ v s h. (h.0, means key raw v found h.1))
                  (interpolate-Triple p lookup start (key ∷ keys) raw depth next
                    (syntax-Blame raw found) (λ ref m. hnext raw ref found m))))
      where
        R : Error → Keys → Type 0
        R = Escapes p lookup start (key ∷ keys)

        Q : String → Keys → Type 0
        Q = Finds p lookup start (key ∷ keys) key

  -- With fuel for the depths that are allowed, and two more, a key is resolved to the end.
  resolve-Triple :
      (fuel : ℕ) (keys : List String) (key : String) (depth : ℕ)
      → Chain lookup start keys key
      → depth ≡ length keys
      → max_depth + 2 ≤ fuel + depth
      → depth ≤ max_depth + 1
      → Triple p
          (Escapes p lookup start keys)
          (At p lookup start keys)
          (Finds p lookup start keys key)
          (resolve p lookup fuel key depth)
  unfolding resolve
  resolve-Triple zero keys key depth chain deep enough short = absurd (omega arith)
  resolve-Triple (suc fuel) keys key depth chain deep enough short =
      if-Triple p R (At p lookup start keys) Q (ltb max_depth depth) _ _
        (λ over.
          eject_with-Triple p lookup start keys Q Kind.too_deep key depth
            (depth-Blame keys key depth chain deep (ground (arith, over))))
        (λ room.
          bind-Triple p R (At p lookup start keys) (λ v s. (v ≡ keys) × At p lookup start keys s) Q
            (gets (λ s. s.resolving)) _
            (gets-Triple p R (At p lookup start keys) (λ v s. (v ≡ keys) × At p lookup start keys s)
              (λ s. s.resolving) (λ s h. (h, h)))
            (λ resolving.
              given-Triple p R (λ s. (resolving ≡ keys) × At p lookup start keys s) Q _
                (λ s same_keys.
                  before-Triple p R _ (At p lookup start keys) Q _ (λ t h. h.1)
                    (if-Triple p R (At p lookup start keys) Q (count key resolving) _ _
                      (λ again.
                        eject_with-Triple p lookup start keys Q Kind.cycle key depth
                          (cycle-Blame keys key depth chain deep (rw (sym same_keys.0) again)))
                      (λ new. fresh_key (rw (sym same_keys.0) new) (λ raw ref found m.
                        resolve-Triple fuel (key ∷ keys) ref (depth + 1)
                          (chain_step keys key raw ref chain found m) (omega (arith, deep))
                          (omega (arith, enough)) (ground (arith, room))))))))
    where
      R : Error → Keys → Type 0
      R = Escapes p lookup start keys

      Q : String → Keys → Type 0
      Q = Finds p lookup start keys key

      fresh_key :
          count key keys ≡ false
          → ((raw ref : String)
              → lookup key ≡ some raw
              → Mentions raw ref
              → Triple p
                  (Escapes p lookup start (key ∷ keys))
                  (At p lookup start (key ∷ keys))
                  (Finds p lookup start (key ∷ keys) ref)
                  (resolve p lookup fuel ref (depth + 1)))
          → Triple p R (At p lookup start keys) Q (
              frame
                (modify (unmark key))
                (under_mark p lookup (λ ref. resolve p lookup fuel ref (depth + 1)) key depth))
      fresh_key new hnext =
          frame-Triple p R (Escapes p lookup start (key ∷ keys)) Q
            (Finds p lookup start (key ∷ keys) key) (unmark key) (At p lookup start keys) _
            (λ v s h. (restored s h.0, h.1)) (λ e s h. (restored s h.0, h.1))
            (under_mark-Triple keys key depth chain deep _ new hnext)
        where
          restored :
              (s : Keys) → At p lookup start (key ∷ keys) s → At p lookup start keys (unmark key s)
          restored s h = ap (erase key) h ∙ rw (same_self key) (erase-absent key keys new)

  -- A resolver that is not resolving any key, asked for one on a thread that is not unwinding, always
  -- answers, and the thread is as it was. It is then not resolving any key. It answers with a value
  -- only if that is what the table gives the key, and with an error and the key it blames only if a
  -- chain of references from the key leads there: to a key that is missing, to one on the chain
  -- already, to one more than 64 references away, or to a text with an unclosed reference. The error
  -- holds the number of references.
  pub resolve_key_lem :
      (junk : List ℕ) (w : World Keys)
      → w.thread.in_flight ≡ false
      → IsCarried p
      → w.app.resolving ≡ []
      → Landed
          (λ e s. (s.resolving ≡ []) × Blame lookup start e s.error_key)
          (λ v s. (s.resolving ≡ []) × Means lookup start v)
          w
          (resolve_key p lookup junk start w)
  unfolding resolve_key
  resolve_key_lem junk w calm c idle =
      scope-Landed p (Escapes p lookup start []) (At p lookup start [])
        (Finds p lookup start [] start) junk w (resolve p lookup (max_depth + 2) start 0) calm c
        idle
        (resolve-Triple (max_depth + 2) [] start 0 chain_start refl (omega arith) (omega arith))
