-- ===== src/Resolver/Interpolate.antt =====
-- `interpolate` of reference_app/src/resolve.hpp against the references of a text.
use mathlib.Core.List.{append_assoc}
use jmpxx.Prelude.{
  ℕ, zero, suc, ◌+◌, ◌<◌, ◌≡◌, refl, sym, ap, ◌∙◌, inl, inr, Option, some, List, [], ◌∷◌, ◌++◌,
  arith, Bool-cases, Option-cases, length, length-append, take, drop, length-drop,
}
use jmpxx.Prelude.Int.{pos}
use jmpxx.Prelude.Text.{String, strchr, strchr-some, is_prefix→eq, is_prefix}
use jmpxx.Core.Error.{Error}
use jmpxx.Unwind.{◌>>=◌, Arm, modify}
use jmpxx.Unwind.Escape.{Payload}
use jmpxx.Unwind.Triple.{
  Triple, pure-Triple, modify-Triple, eject-Triple, given-Triple, before-Triple, after-Triple,
  option-Triple, bind-Triple,
}
use jmpxx.Resolver.{
  Kind, kind_code, Keys, open_mark, close_mark, find, note_key, eject_with, interpolate_from,
  interpolate,
}
use jmpxx.Resolver.Meaning.{
  Cut, Mentions, first_ref, later_ref, Unclosed, never_closed, later_unclosed, Means, Expands,
  plain_text, spliced, Blame,
}

find-some :
    (text : String) (i : ℕ)
    → find open_mark text ≡ some i
    → (text ≡ take i text ++ (open_mark ++ drop (i + 2) text)) × (length (take i text) ≡ i)
find-some [] i h = ground (arith, h)
find-some (c ∷ text) zero h = elim (Bool-cases (is_prefix open_mark (c ∷ text))) [
  | inl met ↦ (is_prefix→eq open_mark (c ∷ text) met, refl)
  | inr other ↦ elim (Option-cases (find open_mark text)) [
    | inl absent ↦ ground (arith, h, other, absent)
    | inr (j, e) ↦ ground (arith, h, other, e)
  ]
]
find-some (c ∷ text) (suc i) h = elim (Bool-cases (is_prefix open_mark (c ∷ text))) [
  | inl met ↦ ground (arith, h, met)
  | inr other ↦ elim (Option-cases (find open_mark text)) [
    | inl absent ↦ ground (arith, h, other, absent)
    | inr (j, e) ↦ ground (arith, h, other, e, find-some text i)
  ]
]

module _ (text : String) (i j : ℕ) (h : find open_mark text ≡ some i)
    (g : strchr (drop (i + 2) text) close_mark ≡ some j) where
  -- What the two searches find is a reference.
  find-Cut : Cut text (take i text) (take j (drop (i + 2) text)) (drop (j + 1) (drop (i + 2) text))
  find-Cut = record {
    parts =
        (find-some text i h).0
        ∙ ap (λ r. take i text ++ (open_mark ++ r))
            (strchr-some (drop (i + 2) text) close_mark j g).0;
    first = h ∙ ap some (sym (find-some text i h).1);
    closed =
        ap (λ r. strchr r close_mark) (sym (strchr-some (drop (i + 2) text) close_mark j g).0)
        ∙ g
        ∙ ap some (sym (strchr-some (drop (i + 2) text) close_mark j g).1);
  }

  rest-lt : length (drop (j + 1) (drop (i + 2) text)) < length text
  rest-lt = omega (
    arith,
    ap length (find-some text i h).0,
    (find-some text i h).1,
    length-append (take i text) (open_mark ++ drop (i + 2) text),
    length-drop (i + 2) text,
    length-drop (j + 1) (drop (i + 2) text),
  )

module _ (p : Payload Error) (lookup : String → Option String) (start : String) where
  -- The set of the keys that are being resolved is the chain.
  abbrev pub At : List String → Keys → Type 0
  At keys s = s.resolving ≡ keys

  abbrev pub Escapes : List String → Error → Keys → Type 0
  Escapes keys e s = At keys s × Blame lookup start e s.error_key

  abbrev pub Finds : List String → String → String → Keys → Type 0
  Finds keys key v s = At keys s × Means lookup key v

  pub eject_with-Triple :
      {A : Type 0} (keys : List String) (Q : A → Keys → Type 0) (k : Kind) (key : String)
      (depth : ℕ)
      → Blame lookup start (record { code = pos (kind_code k); domain = pos depth }) key
      → Triple p (Escapes keys) (At keys) Q (eject_with p lookup {A = A} k key depth)
  unfolding eject_with
  eject_with-Triple keys Q k key depth b =
      bind-Triple p (Escapes keys) (At keys) (λ _ s. At keys s × (s.error_key ≡ key)) Q
        (modify (note_key key)) _
        (modify-Triple p (Escapes keys) (At keys) (λ s. At keys s × (s.error_key ≡ key))
          (note_key key) (λ s h. (h, refl)))
        (λ _.
          eject-Triple p (Escapes keys) (λ s. At keys s × (s.error_key ≡ key)) Q
            (record { code = pos (kind_code k); domain = pos depth }) (λ s h. (h.0, rw h.1 b)))

  module _ (keys : List String) (text : String) (depth : ℕ) (next : String → Arm Keys String)
      (unclosed : Unclosed text
        → Blame lookup start (record { code = pos 4; domain = pos depth }) text)
      (hnext : (ref : String)
        → Mentions text ref
        → Triple p (Escapes keys) (At keys) (Finds keys ref) (next ref)) where
    abbrev Writes : String → String → String → Keys → Type 0
    Writes out rest v s = At keys s × (t : String) × Expands lookup rest t × (v ≡ out ++ t)

    splice :
        (out before ref after value v : String) (s : Keys) (rest : String)
        → Cut rest before ref after
        → Means lookup ref value
        → Writes ((out ++ before) ++ value) after v s
        → Writes out rest v s
    splice out before ref after value v s rest c m (h, t, e, eq) = (
      h,
      before ++ (value ++ t),
      spliced rest before ref after value t c m e,
      eq ∙ append_assoc (out ++ before) value t ∙ append_assoc out before (value ++ t),
    )

    reference-Triple :
        (out rest before ref after : String) (loop : String → Arm Keys String)
        → Cut rest before ref after
        → Mentions text ref
        → ((value : String)
            → Triple p
                (Escapes keys)
                (At keys)
                (Writes ((out ++ before) ++ value) after)
                (loop value))
        → Triple p (Escapes keys) (At keys) (Writes out rest) (next ref >>= loop)
    reference-Triple out rest before ref after loop c ment hloop =
        bind-Triple p (Escapes keys) (At keys) (Finds keys ref) (Writes out rest) (next ref) loop
          (hnext ref ment)
          (λ value.
            given-Triple p (Escapes keys) (Finds keys ref value) (Writes out rest) (loop value)
              (λ s m.
                before-Triple p (Escapes keys) (Finds keys ref value) (At keys) (Writes out rest)
                  (loop value) (λ t h. h.0)
                  (after-Triple p (Escapes keys) (At keys) (Writes out rest)
                    (Writes ((out ++ before) ++ value) after) (loop value)
                    (λ v t. splice out before ref after value v t rest c m.1) (hloop value))))

    interpolate_from-Triple :
        (fuel : ℕ) (out rest : String)
        → length rest < fuel
        → ((r : String) → Mentions rest r → Mentions text r)
        → (Unclosed rest → Unclosed text)
        → Triple p
            (Escapes keys)
            (At keys)
            (Writes out rest)
            (interpolate_from p lookup next fuel text depth out rest)
    unfolding interpolate_from
    interpolate_from-Triple zero out rest enough ment uncl = absurd (omega arith)
    interpolate_from-Triple (suc fuel) out rest enough ment uncl =
        option-Triple p R (At keys) Q (find open_mark rest) _ _
          (λ absent.
            pure-Triple p R (At keys) Q (out ++ rest)
              (λ s h. (h, rest, plain_text rest absent, refl)))
          (λ i found.
            option-Triple p R (At keys) Q (strchr (drop (i + 2) rest) close_mark) _ _
              (λ absent.
                eject_with-Triple keys Q Kind.malformed text depth
                  (unclosed (uncl (never_closed rest i found absent))))
              (λ j closed.
                reference-Triple out rest (take i rest) (take j (drop (i + 2) rest))
                  (drop (j + 1) (drop (i + 2) rest)) _ (find-Cut rest i j found closed)
                  (ment _ (first_ref rest _ _ _ (find-Cut rest i j found closed)))
                  (λ value.
                    interpolate_from-Triple fuel _ _
                      (omega (arith, enough, rest-lt rest i j found closed))
                      (λ r m. ment r (later_ref rest _ _ _ r (find-Cut rest i j found closed) m))
                      (λ u. uncl (later_unclosed rest _ _ _ (find-Cut rest i j found closed) u)))))
      where
        R : Error → Keys → Type 0
        R = Escapes keys

        Q : String → Keys → Type 0
        Q = Writes out rest

    pub interpolate-Triple :
        Triple p
          (Escapes keys)
          (At keys)
          (λ v s. At keys s × Expands lookup text v)
          (interpolate p lookup next text depth)
    interpolate-Triple =
        after-Triple p (Escapes keys) (At keys) _ (Writes [] text) _
          (λ v s (h, t, e, eq). (h, rw eq e))
          (interpolate_from-Triple (suc (length text)) [] text (omega arith) (λ r m. m) (λ u. u))
