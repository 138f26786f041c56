-- ===== src/Client/Drive.antt =====
-- The driver of reference_app/optee_ta/host/verify_client.c. The client API of the TEE is the parameter
-- `tee`; what is printed is a list of lines, without the origins of the API's errors.
use jmpxx.Prelude.{
  ℕ, ◌+◌, ◌-◌, ◌/◌, ◌%◌, Bool, true, false, not, ◌||◌, Option, none, some, List, [], ◌∷◌, ◌++◌, leb,
  ◌==◌, if◌then◌else◌, length, get_or, take,
}
use Prim.Native.String.{String}
use jmpxx.Prelude.Text.{until_nul}
use jmpxx.Manifest.Reader.{◌>>=◌}
use jmpxx.Manifest.Session.{Kit, Params, Reply, cmd_verify, cmd_layout}
use jmpxx.Manifest.Verify.{magic}
use jmpxx.Client.Builder.{Spec, begin, entries, put, put_u8, put_u32, digest_img0, digest_wrong}

-- What the client calls: whether a context is there, whether a session opens, and what an invocation
-- returns and leaves in its parameters.
pub record Tee (S : Type 0) : Type 0 where
  pub initializes : Bool
  pub opens : S → Bool
  pub opened : S → S
  pub invokes : ℕ → ℕ → Params → S → Reply
  pub invoked : ℕ → ℕ → Params → S → S

unfoldable pub fault_text : ℕ → String
fault_text f =
    if f == 0
    then "verified"
    else if f == 1
    then "the manifest is truncated"
    else if f == 2
    then "the header is not MFST"
    else if f == 3
    then "the schema version is unsupported"
    else if f == 4
    then "an entry is malformed"
    else if f == 5
    then "an image length is implausible"
    else if f == 6
    then "a digest does not match"
    else if f == 7
    then "a referenced entry is absent"
    else if f == 8
    then "the references form a cycle"
    else if f == 9
    then "the reference nesting is too deep"
    else if f == 10
    then "a digest could not be started"
    else "an unknown fault"

pub data Line : Type 0 where
  session_not_open : String → Line
  invoke_failed : String → ℕ → Line
  verified : String → ℕ → Line
  fault_found : String → ℕ → ℕ → List ℕ → String → Line
  expectation_failed : String → Line
  layout_not_reported : Line
  layout_reported : ℕ → ℕ → ℕ → ℕ → ℕ → ℕ → Line
  layout_wrong : Line
  no_context : Line
  finished : Bool → Line

-- The counter of the failures, the lines so far, and what is behind the client API.
pub record Client (S : Type 0) : Type 0 where
  pub failures : ℕ
  pub lines : List Line
  pub world : S

-- The parameters of an invocation after `memset`.
abbrev pub cleared : Params
cleared = record { layout = (0, 0); buffer = none; verdict = (0, 0); out = [] }

-- The last byte of the third parameter.
abbrev pub path_left : List ℕ → ℕ
path_left out = if leb 2 (length out) then get_or out (length out - 1) 0 else 255

-- The line for a verdict.
abbrev pub report : String → Params → Line
report label ps =
    if ps.verdict.0 == 0
    then verified label ps.verdict.1
    else fault_found label ps.verdict.0 ps.verdict.1 (until_nul ps.out) (fault_text ps.verdict.0)

-- The names of the entries.
abbrev pub boot : List ℕ
boot = b'b' ∷ b'o' ∷ b'o' ∷ b't' ∷ []

abbrev pub runtime : List ℕ
runtime = b'r' ∷ b'u' ∷ b'n' ∷ b't' ∷ b'i' ∷ b'm' ∷ b'e' ∷ []

abbrev pub app : List ℕ
app = b'a' ∷ b'p' ∷ b'p' ∷ []

abbrev pub absent : List ℕ
absent = b'a' ∷ b'b' ∷ b's' ∷ b'e' ∷ b'n' ∷ b't' ∷ []

abbrev pub one : List ℕ
one = b'o' ∷ b'n' ∷ b'e' ∷ []

abbrev pub two : List ℕ
two = b't' ∷ b'w' ∷ b'o' ∷ []

-- An entry of four bytes with a digest and a reference.
abbrev pub spec : List ℕ → List ℕ → Option (List ℕ) → Spec
spec name digest ref = record { name = name; declared = 4; digest = digest; ref = ref }

abbrev pub chain : List ℕ → List Spec
chain digest =
    spec boot digest_img0 (some runtime)
    ∷ spec runtime digest_img0 (some app)
    ∷ spec app digest none
    ∷ []

abbrev pub manifest_of : ℕ → List ℕ → List Spec → Option (List ℕ)
manifest_of count magic es = do b ← begin count magic 1; entries b es

abbrev pub truncated : Option (List ℕ)
truncated = do
  b ← begin 2 magic 1
  b ← put_u8 b 4
  b ← put b boot
  b ← put_u32 b 4
  some (take (length b - 2) b)

-- The manifests that `main` builds, in its order, each with its label and the fault that is wanted.
unfoldable pub scenarios : List (String × Option (List ℕ) × ℕ)
scenarios =
    ("valid", manifest_of 3 magic (chain digest_img0), 0)
    ∷ ("bad digest", manifest_of 3 magic (chain digest_wrong), 6)
    ∷ ("valid again", manifest_of 3 magic (chain digest_img0), 0)
    ∷ (
      "dangling",
      manifest_of 2 magic
          (spec boot digest_img0 (some absent) ∷ spec runtime digest_img0 none ∷ []),
      7,
    )
    ∷ (
      "cycle",
      manifest_of 2 magic (spec one digest_img0 (some two) ∷ spec two digest_img0 (some one) ∷ []),
      8,
    )
    ∷ (
      "bad header",
      manifest_of 1 (b'X' ∷ b'X' ∷ b'X' ∷ b'X' ∷ []) (spec boot digest_img0 none ∷ []),
      2,
    )
    ∷ ("truncated", truncated, 1)
    ∷ ("valid last", manifest_of 3 magic (chain digest_img0), 0)
    ∷ []

module _ {S : Type 0} where
  abbrev pub print : Line → Client S → Client S
  print line c = record c { lines = c.lines ++ line ∷ [] }

  abbrev pub count_failure : Client S → Client S
  count_failure c = record c { failures = c.failures + 1 }

  unfoldable pub expect : Bool → String → Client S → Client S
  expect ok what c = if ok then c else count_failure (print (expectation_failed what) c)

  unfoldable pub check_reply : Kit → String → ℕ → Reply → Client S → Client S
  check_reply kit label want_fault reply c =
      if not (reply.status == kit.success)
      then count_failure (print (invoke_failed label reply.status) c)
      else expect (path_left reply.params.out == 0)
          "the trusted application left its reference path empty"
          (expect (reply.params.verdict.0 == want_fault) "the reported fault is the expected one"
            (print (report label reply.params) c))

  -- The words of the session's size and of its alignment, and the version.
  unfoldable pub check_layout : Kit → Reply → Client S → Client S
  check_layout kit reply c =
      let (a, b) = reply.params.layout in
      let c₁ =
        print
          (layout_reported (a % 256) (a / 256 % 256) (a / 65536 % 256) (b / 10000) (b / 100 % 100)
            (b % 100))
          c in
      if not (reply.status == kit.success)
      then print layout_not_reported c
      else if not (a % 256 == 8) || not (a / 256 % 256 == 12)
      then count_failure (print layout_wrong c₁)
      else c₁

  module _ (kit : Kit) (tee : Tee S) (name_out : List ℕ) where
    -- `name_out` is what the uninitialised array holds.
    unfoldable pub run : String → List ℕ → ℕ → Client S → Client S
    unfolding check_reply
    run label b want_fault c =
        if tee.opens c.world
        then (let ps = record cleared { buffer = some b; out = name_out } in
            let s = tee.opened c.world in
            check_reply kit label want_fault (tee.invokes cmd_verify kit.verify_types ps s)
              (record c { world = tee.invoked cmd_verify kit.verify_types ps s }))
        else count_failure
            (print (session_not_open label) (record c { world = tee.opened c.world }))

    unfoldable pub report_layout : Client S → Client S
    unfolding check_layout
    report_layout c =
        if tee.opens c.world
        then (let s = tee.opened c.world in
            check_layout kit (tee.invokes cmd_layout kit.layout_types cleared s)
              (record c { world = tee.invoked cmd_layout kit.layout_types cleared s }))
        else print (session_not_open "layout") (record c { world = tee.opened c.world })

    -- Runs, each on a manifest that is built before it.
    unfoldable pub runs : List (String × Option (List ℕ) × ℕ) → Client S → Option (Client S)
    unfolding run
    runs [] c = some c
    runs ((label, manifest, want_fault) ∷ rest) c = do
      b ← manifest
      runs rest (run label b want_fault c)

    -- The status that `main` returns with what is left; `none` is a copy outside an array.
    unfoldable pub main : Client S → Option (ℕ × Client S)
    unfolding runs report_layout scenarios
    main c =
        if tee.initializes
        then (do
          c₁ ← runs scenarios (report_layout c)
          if c₁.failures == 0
              then some (0, print (finished true) c₁)
              else some (1, print (finished false) c₁))
        else some (1, print no_context c)
