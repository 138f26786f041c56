-- ===== src/Manifest/Walk.antt =====
-- `find_entry` of reference_app/optee_ta/ta/manifest_ta.cpp against the entries of a manifest.
use jmpxx.Prelude.{
  ℕ, zero, suc, ◌+◌, ◌%◌, ◌≤◌, ◌<◌, ◌≡◌, refl, sym, ap, ◌∙◌, true, false, not, Option, none, some,
  List, ◌∷◌, ◌++◌, arith, if◌then◌else◌, length, take, drop,
}
use jmpxx.Prelude.Text.{String, same, same→eq}
use jmpxx.Manifest.Reader.{are_bytes, plus, has}
use jmpxx.Manifest.Find.{Walked, walk_body, walk_entry, find_from, find_entry}
use jmpxx.Manifest.Entries.{Body, Entry, Named, named_here, named_later, Lists}
use jmpxx.Manifest.Bounds.{
  Safe, safe, bind-Safe, if-Safe, slice-Safe, Bytes, take-Bytes, u32-Safe, Encodes, u8-Safe, Byte,
  plus_small, plus-plus, has-le, has-plus,
}

-- The parts of a body that are read one after the other.
pub reads-Body :
    (buf : List ℕ) (at declared ref_len : ℕ) (digest ref : List ℕ)
    → Encodes buf at declared
    → Bytes buf (at + 4) 32 digest
    → Byte buf (at + 4 + 32) ref_len
    → Bytes buf (at + 4 + 32 + 1) ref_len ref
    → Body buf at declared digest ref (at + 4 + 32 + 1 + ref_len)
reads-Body buf at declared ref_len digest ref e d b r = record {
  size_bytes = e.0;
  layout =
      e.1
      ∙ ap (λ l. e.0 ++ l)
          (d.0
            ∙ ap (λ l. digest ++ l)
                (b.1
                  ∙ ap (λ l. ref_len ∷ l) r.0
                  ∙ ap (λ n. n ∷ (ref ++ drop (at + 4 + 32 + 1 + ref_len) buf)) (sym r.1)));
  four = e.2;
  size = e.3;
  digest_size = d.1;
}

module _ (word : ℕ) (buf : List ℕ) (bytes : are_bytes buf ≡ true)
    (room : length buf + 512 ≤ word) where
  -- An entry that the walk has passed.
  abbrev Passed : ℕ → Option Walked → Type 0
  Passed at none = Unit {0}
  Passed at (some e) =
      Entry word buf at e.name e.body e.next × (e.body ≤ length buf) × (e.next ≤ length buf)

  abbrev Located : String → ℕ → ℕ → Option ℕ → Type 0
  Located want count at none = Unit {0}
  Located want count at (some body) = Named word buf want count at body × (body ≤ length buf)

  plus₃ :
      (at l m n : ℕ)
      → at + l + m + n < word
      → plus word (plus word (plus word at l) m) n ≡ at + l + m + n
  plus₃ at l m n h =
      ap (λ k. plus word k n) (plus-plus word at l m (omega (arith, h)))
      ∙ plus_small word (at + l + m) n h

  walk_rest-Safe :
      (at : ℕ) (name : String) (body declared ref_len from : ℕ)
      → drop at buf ≡ length name ∷ (name ++ drop body buf)
      → Encodes buf body declared
      → Byte buf (body + 4 + 32) ref_len
      → from ≡ body + 4 + 32 + 1
      → body + 37 ≤ length buf
      → Safe (Passed at) (
          if not (has word buf from ref_len)
          then some none
          else if not (has word buf (plus word from ref_len) declared)
          then some none
          else some (
              some (record {
                name = name;
                body = body;
                next = plus word (plus word from ref_len) declared;
              })))
  unfolding plus
  walk_rest-Safe at name body declared ref_len from named e b place inside =
      if-Safe Q (not (has word buf from ref_len)) _ _ (λ _. safe none tt)
        (λ h.
          if-Safe Q (not (has word buf (plus word from ref_len) declared)) _ _ (λ _. safe none tt)
            (λ g.
              let small : from + ref_len < word = omega (arith, room, b.0, place, inside) in
              let whole = has-le word buf from ref_len (ground (arith, h)) small in
              safe
                (some (record {
                  name = name;
                  body = body;
                  next = plus word (plus word from ref_len) declared;
                }))
                (
                  record {
                    named = named;
                    declared = declared;
                    digest = take 32 (drop (body + 4) buf);
                    ref = take ref_len (drop (body + 4 + 32 + 1) buf);
                    image = body + 4 + 32 + 1 + ref_len;
                    holds =
                        reads-Body buf body declared ref_len _ _ e
                          (take-Bytes buf (body + 4) 32 (omega (arith, inside))) b
                          (take-Bytes buf (body + 4 + 32 + 1) ref_len
                            (omega (arith, whole, place)));
                    follows =
                        ap (λ k. (k + declared) % word)
                          (plus_small word from ref_len small ∙ ap (λ k. k + ref_len) place);
                  },
                  omega (arith, inside),
                  has-plus word buf (plus word from ref_len) declared (ground (arith, g)),
                )))
    where
      Q : Option Walked → Type 0
      Q = Passed at

  walk_body-Safe :
      (at : ℕ) (name : String) (body : ℕ)
      → drop at buf ≡ length name ∷ (name ++ drop body buf)
      → body ≤ length buf
      → Safe (Passed at) (walk_body word buf name body)
  unfolding walk_body
  walk_body-Safe at name body named start =
      if-Safe Q (has word buf body 37) _ _
        (λ h.
          let inside = has-le word buf body 37 h (omega (arith, start, room)) in
          bind-Safe Q (Encodes buf body) _ (u32-Safe buf body (omega (arith, inside)))
            (λ declared e.
              bind-Safe Q (Byte buf (body + 4 + 32)) _
                (u8-Safe buf (body + 4 + 32) _ bytes
                  (plus-plus word body 4 32 (omega (arith, start, room))) (omega (arith, inside)))
                (λ ref_len b.
                  walk_rest-Safe at name body declared ref_len _ named e b
                    (plus₃ body 4 32 1 (omega (arith, start, room))) inside)))
        (λ _. safe none tt)
    where
      Q : Option Walked → Type 0
      Q = Passed at

  walk_entry-Safe : (at : ℕ) → at ≤ length buf → Safe (Passed at) (walk_entry word buf at)
  unfolding walk_entry
  walk_entry-Safe at start =
      if-Safe Q (has word buf at 1) _ _
        (λ h.
          let inside = has-le word buf at 1 h (omega (arith, start, room)) in
          let one = plus_small word at 1 (omega (arith, start, room)) in
          bind-Safe Q (Byte buf at) _ (u8-Safe buf at at bytes refl (omega (arith, inside)))
            (λ name_len b.
              if-Safe Q (has word buf (plus word at 1) name_len) _ _
                (λ g.
                  let small : plus word at 1 + name_len < word =
                    omega (arith, room, b.0, one, inside) in
                  let whole = has-le word buf (plus word at 1) name_len g small in
                  bind-Safe Q (Bytes buf (at + 1) name_len) _
                    (slice-Safe buf (at + 1) (plus word at 1) name_len one
                      (omega (arith, whole, one)))
                    (λ name c.
                      walk_body-Safe at name _
                        (b.1
                          ∙ ap (λ l. name_len ∷ l)
                              (c.0
                                ∙ ap (λ k. name ++ drop k buf)
                                    (ap (λ k. k + name_len) (sym one)
                                      ∙ sym (plus_small word (plus word at 1) name_len small)))
                          ∙ ap (λ k. k ∷ (name ++ drop (plus word (plus word at 1) name_len) buf))
                              (sym c.1))
                        (has-plus word buf (plus word at 1) name_len g)))
                (λ _. safe none tt)))
        (λ _. safe none tt)
    where
      Q : Option Walked → Type 0
      Q = Passed at

  later-Safe :
      (want : String) (count at : ℕ) (e : Walked)
      → Entry word buf at e.name e.body e.next
      → same e.name want ≡ false
      → {o : Option (Option ℕ)} → Safe (Located want count e.next) o
      → Safe (Located want (suc count) at) o
  later-Safe want count at e entry other (safe none l) = safe none tt
  later-Safe want count at e entry other (safe (some body) l) =
      safe (some body) (named_later count at e.body e.next body e.name entry other l.0, l.1)

  step-Safe :
      (want : String) (count at : ℕ)
      → ((e : Walked)
          → e.next ≤ length buf
          → Safe (Located want count e.next) (find_from word buf want count e.next))
      → (walked : Option Walked) → Passed at walked
      → Safe (Located want (suc count) at) (elim walked [
        | none ↦ some none
        | some e ↦
            let rest = find_from word buf want count e.next in
            if same e.name want then some (some e.body) else rest
      ])
  step-Safe want count at rest none h = safe none tt
  step-Safe want count at rest (some e) h =
      if-Safe (Located want (suc count) at) (same e.name want) _ _
        (λ met.
          let entry : Entry word buf at want e.body e.next =
            rw (sym (same→eq e.name want met)) h.0 in
          safe (some e.body) (named_here count at e.body e.next entry, h.1))
        (λ other. later-Safe want count at e h.0 other (rest e h.2))

  find_from-Safe :
      (want : String) (count at : ℕ)
      → at ≤ length buf
      → Safe (Located want count at) (find_from word buf want count at)
  unfolding find_from
  find_from-Safe want zero at start = safe none tt
  find_from-Safe want (suc count) at start =
      bind-Safe (Located want (suc count) at) (Passed at) _ (walk_entry-Safe at start)
        (step-Safe want count at (λ e h. find_from-Safe want count e.next h))

  abbrev pub Finds : String → Option ℕ → Type 0
  Finds want none = Unit {0}
  Finds want (some body) = Lists word buf want body × (body ≤ length buf)

  pub find_entry-Safe : (want : String) → Safe (Finds want) (find_entry word buf want)
  unfolding find_entry
  find_entry-Safe want =
      if-Safe (Finds want) (has word buf 0 6) _ _
        (λ h.
          bind-Safe (Finds want) (Byte buf 5) _
            (u8-Safe buf 5 5 bytes refl (omega (arith, has-le word buf 0 6 h, room)))
            (λ count b.
              found (find_from-Safe want count 6 (omega (arith, has-le word buf 0 6 h, room))) b))
        (λ _. safe none tt)
    where
      found :
          {count : ℕ} {o : Option (Option ℕ)}
          → Safe (Located want count 6) o
          → Byte buf 5 count
          → Safe (Finds want) o
      found (safe none l) b = safe none tt
      found {count} (safe (some body) l) b =
          safe (some body) (record { count = count; counted = b.1; among = l.0 }, l.1)
