-- ===== src/Resolver/Complete.antt =====
-- The resolver of reference_app/src/resolve.hpp on the keys that have a value.
use jmpxx.Prelude.{
  ℕ, ◌+◌, ◌<◌, ◌≡◌, refl, sym, ap, ◌∙◌, ◌⊎◌, inl, inr, true, false, Option, none, some, List, [],
  ◌∷◌, arith, Bool-cases, length, drop,
}
use jmpxx.Prelude.Int.{pos}
use jmpxx.Prelude.Text.{String, strchr, same, same→eq}
use jmpxx.Core.Error.{Error}
use jmpxx.Core.Transport.Refines.{Result, ok, failed}
use jmpxx.Unwind.{World, returned}
use jmpxx.Unwind.Escape.{Payload, IsCarried}
use jmpxx.Unwind.Triple.{Yields}
use jmpxx.Resolver.{Keys, open_mark, close_mark, find, count, max_depth, resolve_key}
use jmpxx.Resolver.Meaning.{
  Mentions, first_ref, later_ref, Unclosed, never_closed, later_unclosed, Means, means, Expands,
  plain_text, spliced, Chain, chain_start, chain_step, Blame, blame_missing, blame_cycle,
  blame_depth, blame_syntax,
}
use jmpxx.Resolver.Unique.{
  index, after_open, ref_of, rest_of, after_open-eq, ref-eq, rest-eq, value_or, not_plain,
  Means-unique,
}
use jmpxx.Resolver.Sound.{resolve_key_lem}

module _ (lookup : String → Option String) where
  -- One key refers to another, in one step or more.
  data Leads : String → String → Type 0 where
    leads_to : (k raw r : String) → lookup k ≡ some raw → Mentions raw r → Leads k r
    leads_on :
        (k raw r k' : String) → lookup k ≡ some raw → Mentions raw r → Leads r k' → Leads k k'

  Leads-further :
      (k k' raw r : String) → Leads k k' → lookup k' ≡ some raw → Mentions raw r → Leads k r
  Leads-further k k' raw r (leads_to _ raw' _ l m) h g =
      leads_on k raw' k' r l m (leads_to k' raw r h g)
  Leads-further k k' raw r (leads_on _ raw' x _ l m p) h g =
      leads_on k raw' x r l m (Leads-further x k' raw r p h g)

  Chain-Leads :
      (start x : String) (keys : List String) (key : String)
      → Chain lookup start keys key
      → count x keys ≡ true
      → Leads x key
  Chain-Leads start x [] key c h = absurd (ground (arith, h))
  Chain-Leads start x (k ∷ keys) key (chain_step _ _ raw _ c l m) h = elim (Bool-cases (same k x)) [
    | inl met ↦
        let from : x ≡ k = sym (same→eq k x met) in leads_to x raw key (ap lookup from ∙ l) m
    | inr other ↦
        Leads-further x k raw key (Chain-Leads start x keys k c (ground (arith, h, other))) l m
  ]

  plain_mentions :
      (text r : String) → find open_mark text ≡ none → Mentions text r → {A : Type 0} → A
  plain_mentions text r h (first_ref _ before _ after c) = not_plain text before h c.first
  plain_mentions text r h (later_ref _ before ref after _ c m) = not_plain text before h c.first

  mutual
    Means-no_loop : (k k' v : String) → Means lookup k v → k ≡ k' → Leads k' k' → ⊥
    Means-no_loop k k' v (means _ raw _ l x) e (leads_to _ raw' _ l' m) =
        Expands-no_loop raw raw' v k' x (ap value_or (sym l ∙ ap lookup e ∙ l')) m
          (leads_to k' raw' k' l' m)
    Means-no_loop k k' v (means _ raw _ l x) e (leads_on _ raw' r _ l' m p) =
        Expands-no_loop raw raw' v r x (ap value_or (sym l ∙ ap lookup e ∙ l')) m
          (Leads-further r k' raw' r p l' m)

    Expands-no_loop :
        (text text' v r : String)
        → Expands lookup text v
        → text ≡ text'
        → Mentions text' r
        → Leads r r
        → ⊥
    Expands-no_loop text text' v r (plain_text _ h) e m p =
        plain_mentions text' r (ap (find open_mark) (sym e) ∙ h) m
    Expands-no_loop text text' v r (spliced _ before ref after value rest c y x) e
          (first_ref _ before' _ after' c') p =
        Means-no_loop ref r value y (sym (ref-eq c) ∙ ap ref_of e ∙ ref-eq c') p
    Expands-no_loop text text' v r (spliced _ before ref after value rest c y x) e
          (later_ref _ before' ref' after' _ c' m) p =
        Expands-no_loop after after' rest r x (sym (rest-eq c) ∙ ap rest_of e ∙ rest-eq c') m p

  Expands-Means :
      (text text' v r : String)
      → Expands lookup text v
      → text ≡ text'
      → Mentions text' r
      → (u : String) × Means lookup r u
  Expands-Means text text' v r (plain_text _ h) e m =
      plain_mentions text' r (ap (find open_mark) (sym e) ∙ h) m
  Expands-Means text text' v r (spliced _ before ref after value rest c y x) e
        (first_ref _ before' _ after' c') =
      let found : ref ≡ r = sym (ref-eq c) ∙ ap ref_of e ∙ ref-eq c' in (value, rw (sym found) y)
  Expands-Means text text' v r (spliced _ before ref after value rest c y x) e
        (later_ref _ before' ref' after' _ c' m) =
      Expands-Means after after' rest r x (sym (rest-eq c) ∙ ap rest_of e ∙ rest-eq c') m

  -- Every key on a chain from one that has a value has a value.
  Chain-Means :
      (start v : String) (keys : List String) (key : String)
      → Means lookup start v
      → Chain lookup start keys key
      → (u : String) × Means lookup key u
  Chain-Means start v keys key m chain_start = (v, m)
  Chain-Means start v keys key m (chain_step ks k raw _ c l g) = step (Chain-Means start v ks k m c)
    where
      step : (u : String) × Means lookup k u → (u : String) × Means lookup key u
      step (u, means _ raw' _ l' x) = Expands-Means raw' raw u key x (ap value_or (sym l' ∙ l)) g

  closed_text : (text text' v : String) → Expands lookup text v → text ≡ text' → Unclosed text' → ⊥
  closed_text text text' v (plain_text _ h) e (never_closed _ opening g s) =
      ground (arith, sym h ∙ ap (find open_mark) e ∙ g)
  closed_text text text' v (plain_text _ h) e (later_unclosed _ before ref after c u) =
      not_plain text' before (ap (find open_mark) (sym e) ∙ h) c.first
  closed_text text text' v (spliced _ before ref after value rest c y x) e
        (never_closed _ opening g s) =
      let reopened : strchr (after_open text) close_mark ≡ none =
        ap (λ t. strchr (after_open t) close_mark) e
        ∙ ap (λ o. strchr (drop (index o + 2) text') close_mark) g
        ∙ s in
      ground (arith, sym reopened ∙ ap (λ t. strchr t close_mark) (after_open-eq c) ∙ c.closed)
  closed_text text text' v (spliced _ before ref after value rest c y x) e
        (later_unclosed _ before' ref' after' c' u) =
      closed_text after after' rest x (sym (rest-eq c) ∙ ap rest_of e ∙ rest-eq c') u

  -- A chain of references that is too long for the resolver.
  abbrev pub TooDeep : String → Type 0
  TooDeep start =
      (keys : List String) × (key : String) × Chain lookup start keys key
      × (max_depth < length keys)

  Blame-TooDeep :
      (start v key : String) (e : Error)
      → Means lookup start v
      → Blame lookup start e key
      → (e.code ≡ pos 3) × TooDeep start
  Blame-TooDeep start v key e m (blame_missing keys _ c h) =
      absurd (no_key (Chain-Means start v keys key m c))
    where
      no_key : (u : String) × Means lookup key u → ⊥
      no_key (u, means _ raw _ l x) = ground (arith, sym h ∙ l)
  Blame-TooDeep start v key e m (blame_cycle keys _ c h) =
      let value = Chain-Means start v keys key m c in
      absurd (Means-no_loop key key value.0 value.1 refl (Chain-Leads start key keys key c h))
  Blame-TooDeep start v key e m (blame_depth keys _ c h) = (refl, (keys, key, c, h))
  Blame-TooDeep start v key e m (blame_syntax keys k text c l u) =
      absurd (no_text (Chain-Means start v keys k m c))
    where
      no_text : (x : String) × Means lookup k x → ⊥
      no_text (x, means _ raw _ l' y) = closed_text raw key x y (ap value_or (sym l' ∙ l)) u

-- A resolver that is not resolving any key, asked for one that has a value on a thread that is not
-- unwinding, answers with just that value, or with the error of a nesting that is too deep, which it
-- does only if a chain of more than 64 references starts at the key. It is then not resolving any key,
-- and the thread is as it was.
pub resolve_key-Means :
    (p : Payload Error) (lookup : String → Option String) (start v : String) (junk : List ℕ)
    (w : World Keys)
    → w.thread.in_flight ≡ false
    → IsCarried p
    → w.app.resolving ≡ []
    → Means lookup start v
    → (r : Result String Error) × (s : Keys) × (resolve_key p lookup junk start w
        ≡ (returned r, record w { app = s }))
      × (s.resolving ≡ [])
      × ((r ≡ ok v) ⊎ ((e : Error) × (r ≡ failed e) × (e.code ≡ pos 3) × TooDeep lookup start))
resolve_key-Means p lookup start v junk w calm c idle m =
    let l = resolve_key_lem p lookup start junk w calm c idle in
    let a = answer l.result l.state l.yields in (l.result, l.state, l.lands, a.0, a.1)
  where
    answer :
        (r : Result String Error) (s : Keys)
        → Yields
            (λ e s. (s.resolving ≡ []) × Blame lookup start e s.error_key)
            (λ u s. (s.resolving ≡ []) × Means lookup start u)
            r
            s
        → (s.resolving ≡ [])
          × ((r ≡ ok v) ⊎ ((e : Error) × (r ≡ failed e) × (e.code ≡ pos 3) × TooDeep lookup start))
    answer (ok u) s h = (h.0, inl (ap ok (Means-unique lookup start u v h.1 m)))
    answer (failed e) s h =
        let deep = Blame-TooDeep lookup start v s.error_key e m h.1 in
        (h.0, inr (e, refl, deep.0, deep.1))
