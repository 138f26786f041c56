-- ===== src/ConfigValidate/Server.antt =====
-- What the validator of reference_app/src/config_validate.cpp accepts.
use jmpxx.Prelude.{
  ℕ, ◌^◌, ◌<◌, ◌≡◌, refl, ap, ◌∙◌, ◌↔◌, ◌⊎◌, inl, inr, false, Option, none, some, arith,
  if◌then◌else◌, Bool-cases,
}
use jmpxx.Prelude.Int.{ℤ, pos, negsuc}
use jmpxx.Core.Error.{Error}
use jmpxx.Core.Outcome.{done}
use jmpxx.Core.Hardening.{Hardening}
use jmpxx.Core.Transport.{Transport, fail, of_value, of_failure}
use jmpxx.Core.Transport.Refines.{Result, ok, failed, embed}
use jmpxx.Core.Propagation.{Fn, note_nothing, try_value, lift, pure}
use jmpxx.Core.Propagation.Laws.{try_value_lem}
use jmpxx.Interop.Boundary.{from_optional}
use jmpxx.ConfigValidate.Program.{
  String, Section, Key, server, host, port, workers, Table, missing, out_of_range, Config, outside,
  to_int, field_string, field_int, validate,
}

-- Chaining on the abstract view.
abbrev chain : {V W E : Type 0} → Result V E → (V → Result W E) → Result W E
chain (ok v) f = f v
chain (failed e) f = failed e

abbrev string_result : Option String → Result String Error
string_result none = failed missing
string_result (some v) = ok v

abbrev int_result : ℤ → ℤ → Option ℤ → Result ℤ Error
int_result lo hi none = failed missing
int_result lo hi (some v) = if outside lo hi v then failed out_of_range else ok v

abbrev section_result : Option String → Option ℤ → Option ℤ → Result Config Error
section_result o a b = chain (string_result o) λ h. chain (int_result (pos 1) (pos 65535) a) λ p.
    chain (int_result (pos 1) (pos 1024) b) λ w. ok (record { host = h; port = p; workers = w })

abbrev server_result : Table → Result Config Error
server_result t =
    section_result (t.string_at server host) (t.int_at server port) (t.int_at server workers)

accepted :
    (o : Option String) (a b : Option ℤ) (c : Config)
    → (section_result o a b ≡ ok c) ↔ (
        (o ≡ some c.host)
        × (a ≡ some c.port)
        × (outside (pos 1) (pos 65535) c.port ≡ false)
        × (b ≡ some c.workers)
        × (outside (pos 1) (pos 1024) c.workers ≡ false))
accepted none a b c = (λ h. ground arith, λ h. ground arith)
accepted (some x) none b c = (λ h. ground arith, λ h. ground arith)
accepted (some x) (some y) none c = elim (Bool-cases (outside (pos 1) (pos 65535) y)) [
  | inl out ↦ (λ h. ground arith, λ h. ground arith)
  | inr inside ↦ (λ h. ground arith, λ h. ground arith)
]
accepted (some x) (some y) (some z) c = elim (Bool-cases (outside (pos 1) (pos 65535) y)) [
  | inl out ↦ (λ h. ground arith, λ h. ground arith)
  | inr inside ↦ elim (Bool-cases (outside (pos 1) (pos 1024) z)) [
    | inl out ↦ (λ h. ground arith, λ h. ground arith)
    | inr fits ↦ (λ h. ground arith, λ h. ground arith)
  ]
]

refused :
    (o : Option String) (a b : Option ℤ) (e : Error)
    → section_result o a b ≡ failed e
    → (e ≡ missing) ⊎ (e ≡ out_of_range)
refused none a b e h = inl (ground arith)
refused (some x) none b e h = inl (ground arith)
refused (some x) (some y) none e h = elim (Bool-cases (outside (pos 1) (pos 65535) y)) [
  | inl out ↦ inr (ground arith)
  | inr inside ↦ inl (ground arith)
]
refused (some x) (some y) (some z) e h = elim (Bool-cases (outside (pos 1) (pos 65535) y)) [
  | inl out ↦ inr (ground arith)
  | inr inside ↦ elim (Bool-cases (outside (pos 1) (pos 1024) z)) [
    | inl out ↦ inr (ground arith)
    | inr fits ↦ absurd (ground arith)
  ]
]

-- A number between two small ones survives the conversion to `int`.
to_int_inside :
    (lo hi : ℕ) (v : ℤ) → hi < 2 ^ 31 → outside (pos lo) (pos hi) v ≡ false → to_int v ≡ v
to_int_inside lo hi (pos v) h inside = ground arith
to_int_inside lo hi (negsuc v) h inside = ground arith

string_field :
    (t : Table) (section : Section) (key : Key) (o : Option String)
    → t.string_at section key ≡ o
    → field_string t section key ≡ done (embed (string_result o))
unfolding field_string
string_field t section key none e = rw e refl
string_field t section key (some v) e = rw e refl

module _ {S : Type 0} (h : Hardening) where
  try_result :
      {V W E : Type 0} (expr : Fn S (Transport V E)) (rest : V → Fn S (Transport W E)) (s : S)
      (r : Result V E) (f : V → Result W E)
      → expr s ≡ (done (embed r), s)
      → ((v : V) → rest v s ≡ (done (embed (f v)), s))
      → try_value h note_nothing (λ e. e) expr rest s ≡ (done (embed (chain r f)), s)
  unfolding note_nothing
  try_result expr rest s (ok v) f e g =
      try_value_lem h note_nothing (λ e. e) expr s rest (ok v) e ∙ g v
  try_result expr rest s (failed d) f e g =
      try_value_lem h note_nothing (λ e. e) expr s rest (failed d) e

  ranged :
      (lo hi : ℕ) (s : S) (v : ℤ)
      → hi < 2 ^ 31
      → (if outside (pos lo) (pos hi) v
            then pure {S = S} (of_failure {V = ℤ} (fail out_of_range))
            else pure (of_value (to_int v)))
          s
        ≡ (done (embed (if outside (pos lo) (pos hi) v then failed out_of_range else ok v)), s)
  unfolding of_failure of_value
  ranged lo hi s v small = elim (Bool-cases (outside (pos lo) (pos hi) v)) [
    | inl out ↦ rw out refl
    | inr inside ↦ rw (inside, to_int_inside lo hi v small inside) refl
  ]

  int_field :
      (t : Table) (section : Section) (key : Key) (lo hi : ℕ) (s : S)
      → hi < 2 ^ 31
      → field_int h t section key (pos lo) (pos hi) s
        ≡ (done (embed (int_result (pos lo) (pos hi) (t.int_at section key))), s)
  unfolding field_int from_optional of_value of_failure
  int_field t section key lo hi s small = by_value (t.int_at section key)
    where
      rest : ℤ → Fn S (Transport ℤ Error)
      rest v =
          if outside (pos lo) (pos hi) v
          then pure (of_failure (fail out_of_range))
          else pure (of_value (to_int v))

      result : ℤ → Result ℤ Error
      result v = if outside (pos lo) (pos hi) v then failed out_of_range else ok v

      by_value :
          (o : Option ℤ)
          → try_value h note_nothing (λ e. e) (lift (from_optional o (λ _. done missing))) rest s
            ≡ (done (embed (int_result (pos lo) (pos hi) o)), s)
      by_value none =
          try_result (lift (from_optional none (λ _. done missing))) rest s (failed missing) result
            refl (λ v. ranged lo hi s v small)
      by_value (some x) =
          try_result (lift (from_optional (some x) (λ _. done missing))) rest s (ok x) result refl
            (λ v. ranged lo hi s v small)

  -- In every hardening mode the validator returns a configuration or a failure and leaves the thread
  -- alone. It returns exactly the configuration whose host, port and workers are in the document, the
  -- port from 1 to 65535 and the workers from 1 to 1024; and a failure is that a field is missing or
  -- out of range.
  pub validate_lem :
      (t : Table) (s : S)
      → (r : Result Config Error) × (validate h t s ≡ (done (embed r), s))
        × ((c : Config)
            → (r ≡ ok c) ↔ (
                (t.string_at server host ≡ some c.host)
                × (t.int_at server port ≡ some c.port)
                × (outside (pos 1) (pos 65535) c.port ≡ false)
                × (t.int_at server workers ≡ some c.workers)
                × (outside (pos 1) (pos 1024) c.workers ≡ false)))
        × ((e : Error) → r ≡ failed e → (e ≡ missing) ⊎ (e ≡ out_of_range))
  unfolding validate
  validate_lem t s = (
    server_result t,
    try_result (lift (field_string t server host)) _ s (string_result (t.string_at server host)) _
        (ap (λ o. (o, s)) (string_field t server host (t.string_at server host) refl))
        (λ host.
          try_result (field_int h t server port (pos 1) (pos 65535)) _ s
            (int_result (pos 1) (pos 65535) (t.int_at server port)) _
            (int_field t server port 1 65535 s (omega arith))
            (λ port.
              try_result (field_int h t server workers (pos 1) (pos 1024)) _ s
                (int_result (pos 1) (pos 1024) (t.int_at server workers)) _
                (int_field t server workers 1 1024 s (omega arith)) (λ workers. refl))),
    accepted (t.string_at server host) (t.int_at server port) (t.int_at server workers),
    refused (t.string_at server host) (t.int_at server port) (t.int_at server workers),
  )
