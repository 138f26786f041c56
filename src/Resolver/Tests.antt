-- ===== src/Resolver/Tests.antt =====
-- Runs of the resolver on a small table.
use jmpxx.Prelude.{
  ◌⊎◌, ℕ, ◌≡◌, refl, Option, none, some, List, [], ◌∷◌, ◌==◌, if◌then◌else◌, replicate,
}
use jmpxx.Prelude.Int.{pos}
use jmpxx.Prelude.Text.{String, same}
use jmpxx.Core.Transport.Refines.{Result, ok, failed}
use jmpxx.Core.Error.{Error}
use jmpxx.Unwind.{idle, returned, World}
use jmpxx.Unwind.Escape.{eject, frame, escape_scope, copy_bytes, read_error}
use jmpxx.Unwind.Plain.{plain, plain-IsCarried}
use jmpxx.Unwind.Triple.{Landed}
use jmpxx.Resolver.{Keys, eject_with, interpolate_from, resolve, resolve_key}
use jmpxx.Resolver.Meaning.{Means, means, plain_text, spliced, Blame}
use jmpxx.Resolver.Complete.{TooDeep, resolve_key-Means}
use jmpxx.Resolver.Sound.{resolve_key_lem}
use jmpxx.Resolver.Program.{Line, Reports, main, main_lem, values, new_resolver}

-- a = "x${b}y", b = "1", c = "${c}", d = "${".
abbrev strings : String → Option String
strings key =
    if same key (97 ∷ [])
    then some (120 ∷ 36 ∷ 123 ∷ 98 ∷ 125 ∷ 121 ∷ [])
    else if same key (98 ∷ [])
    then some (49 ∷ [])
    else if same key (99 ∷ [])
    then some (36 ∷ 123 ∷ 99 ∷ 125 ∷ [])
    else if same key (100 ∷ [])
    then some (36 ∷ 123 ∷ [])
    else none

abbrev start : World Keys
start = record { thread = idle; app = new_resolver }

abbrev junk : List ℕ
junk = replicate 32 0

value_of_a :
    resolve_key plain strings junk (97 ∷ []) start ≡ (returned (ok (120 ∷ 49 ∷ 121 ∷ [])), start)
unfolding resolve_key resolve interpolate_from escape_scope frame
value_of_a = refl

fault_of_d : resolve_key plain strings junk (100 ∷ []) start ≡ (
  returned (failed (record { code = pos 4; domain = pos 0 })),
  record start { app = record { resolving = []; error_key = 36 ∷ 123 ∷ [] } },
)
unfolding resolve_key resolve interpolate_from eject_with eject escape_scope frame copy_bytes
    read_error
fault_of_d = refl

resolve_key_lem_example :
    Landed
      (λ e s. (s.resolving ≡ []) × Blame strings (97 ∷ []) e s.error_key)
      (λ v s. (s.resolving ≡ []) × Means strings (97 ∷ []) v)
      start
      (resolve_key plain strings junk (97 ∷ []) start)
resolve_key_lem_example =
    resolve_key_lem plain strings (97 ∷ []) junk start refl plain-IsCarried refl

main_lem_example :
    (ls : List Line) × (n : ℕ) × (s : Keys) × (main plain junk
        (some (values (record { keys = (97 ∷ []) ∷ (99 ∷ []) ∷ []; strings = strings })))
        start
      ≡ (
        returned (record { lines = ls; failures = n; status = if n == 0 then 0 else 1 }),
        record start { app = s },
      ))
    × Reports strings ((97 ∷ []) ∷ (99 ∷ []) ∷ []) ls n
main_lem_example =
    main_lem plain junk strings ((97 ∷ []) ∷ (99 ∷ []) ∷ []) start refl plain-IsCarried

a-Means : Means strings (97 ∷ []) (120 ∷ 49 ∷ 121 ∷ [])
a-Means = means (97 ∷ []) (120 ∷ 36 ∷ 123 ∷ 98 ∷ 125 ∷ 121 ∷ []) _ refl (
    spliced _ (120 ∷ []) (98 ∷ []) (121 ∷ []) (49 ∷ []) (121 ∷ [])
      (record { parts = refl; first = refl; closed = refl })
      (means (98 ∷ []) (49 ∷ []) (49 ∷ []) refl (plain_text (49 ∷ []) refl))
      (plain_text (121 ∷ []) refl))

resolve_key-Means_example :
    (r : Result String Error) × (s : Keys) × (resolve_key plain strings junk (97 ∷ []) start
      ≡ (returned r, record start { app = s }))
    × (s.resolving ≡ [])
    × ((r ≡ ok (120 ∷ 49 ∷ 121 ∷ []))
        ⊎ ((e : Error) × (r ≡ failed e) × (e.code ≡ pos 3) × TooDeep strings (97 ∷ [])))
resolve_key-Means_example =
    resolve_key-Means plain strings (97 ∷ []) (120 ∷ 49 ∷ 121 ∷ []) junk start refl plain-IsCarried
      refl a-Means
