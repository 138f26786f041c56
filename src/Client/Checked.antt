-- ===== src/Client/Checked.antt =====
-- The runs of reference_app/optee_ta/host/verify_client.c against the trusted application.
use jmpxx.Prelude.{
  ℕ, suc, ◌+◌, ◌-◌, ◌≤◌, ◌<◌, ◌≡◌, refl, sym, ap, inl, inr, Bool, true, false, some, List, [], ◌∷◌,
  ◌++◌, arith, ltb, leb, ◌==◌, if◌then◌else◌, Bool-cases, length, length-append, get_or, take,
  length-take,
}
use Prim.Native.String.{String}
use jmpxx.Prelude.Text.{until_nul}
use jmpxx.Core.Error.{Error}
use jmpxx.Core.Transport.Refines.{Result, ok, failed}
use jmpxx.Unwind.{World, Arm, returned, resume}
use jmpxx.Unwind.Escape.{Payload, IsCarried}
use jmpxx.Unwind.Triple.{Yields}
use jmpxx.Manifest.Reader.{are_bytes}
use jmpxx.Manifest.Entries.{Accepted}
use jmpxx.Manifest.Verify.{Instance, max_name, max_image_bytes, magic, verify_manifest}
use jmpxx.Manifest.Owners.{At, IsFault}
use jmpxx.Manifest.Sound.{verify_manifest_lem}
use jmpxx.Manifest.Session.{
  Kit, Params, Reply, verdict_value, reported_name, deliver, verify_command, invoke_command,
  cmd_verify,
}
use jmpxx.Client.Builder.{Spec, begin, entries}
use jmpxx.Client.Layout.{AllFit}
use jmpxx.Client.Judge.{judge_manifest}
use jmpxx.Client.Parsed.{verify_manifest-judge}
use jmpxx.Client.Drive.{Tee, Client, cleared, path_left, check_reply, expect, run}

length-until_nul : (s : List ℕ) → length (until_nul s) ≤ length s
length-until_nul [] = omega arith
length-until_nul (c ∷ s) = ground (arith, length-until_nul s)

length-reported_name : (s : Instance) → length (reported_name s) ≤ 24
length-reported_name s =
    omega (arith, length-until_nul (take max_name s.fault_name), length-take max_name s.fault_name)

get_or-append_end : (xs : List ℕ) → get_or (xs ++ 0 ∷ 0 ∷ []) (suc (length xs)) 0 ≡ 0
get_or-append_end [] = refl
get_or-append_end (x ∷ xs) = get_or-append_end xs

path_left-name : (xs : List ℕ) → path_left (xs ++ 0 ∷ 0 ∷ []) ≡ 0
path_left-name xs =
    let long : leb 2 (length (xs ++ 0 ∷ 0 ∷ [])) ≡ true =
      ground (arith, length-append xs (0 ∷ 0 ∷ [])) in
    let end : length (xs ++ 0 ∷ 0 ∷ []) - 1 ≡ suc (length xs) =
      omega (arith, length-append xs (0 ∷ 0 ∷ [])) in
    rw (long, end) (get_or-append_end xs)

==_self : (n : ℕ) → (n == n) ≡ true
==_self n = ground arith

-- The reply to a verdict when the path is empty and the third parameter has 64 bytes.
deliver-idle :
    (kit : Kit) (ps : Params) (s : Instance)
    → s.path ≡ []
    → length ps.out ≡ 64
    → deliver kit ps s
      ≡ record { status = kit.success; params = record ps { out = reported_name s ++ 0 ∷ 0 ∷ [] } }
unfolding deliver
deliver-idle kit ps s empty sized =
    let room : ltb (length ps.out) (length (reported_name s) + 2) ≡ false =
      ground (arith, sized, length-reported_name s) in
    rw (room, empty)

check_reply-idle :
    {S : Type 0} (kit : Kit) (label : String) (want : ℕ) (ps : Params) (name : List ℕ)
    (c : Client S)
    → let c' =
        check_reply kit label want
          (record { status = kit.success; params = record ps { out = name ++ 0 ∷ 0 ∷ [] } })
          c in
      (c'.failures ≡ (if ps.verdict.0 == want then c.failures else c.failures + 1))
      × (c'.world ≡ c.world)
unfolding check_reply expect
check_reply-idle kit label want ps name c = elim (Bool-cases (ps.verdict.0 == want)) [
  | inl met ↦ rw (==_self kit.success, path_left-name name, met) (refl, refl)
  | inr other ↦ rw (==_self kit.success, path_left-name name, other) (refl, refl)
]

module _ (kit : Kit) (p : Payload Error) (available : ℕ → Bool) (sha256 : List ℕ → List ℕ)
    (word : ℕ) (junk : List ℕ) where
  -- The API opens a session when it is asked, and passes an invocation to the trusted application.
  pub record Connects (tee : Tee (World Instance)) : Type 0 where
    pub opens : (w : World Instance) → tee.opens w ≡ true
    pub opened : (w : World Instance) → tee.opened w ≡ w
    pub answers :
        (cmd types : ℕ) (ps : Params) (w w' : World Instance) (reply : Reply)
        → invoke_command kit p available sha256 word junk cmd types ps w ≡ (returned reply, w')
        → (tee.invokes cmd types ps w ≡ reply) × (tee.invoked cmd types ps w ≡ w')

  invoke-verifies :
      (ps : Params) (buf : List ℕ) (w w' : World Instance) (r : Result ℕ Error)
      → 0 < length buf
      → ps.buffer ≡ some buf
      → verify_manifest p available sha256 word buf junk w ≡ (returned r, w')
      → invoke_command kit p available sha256 word junk cmd_verify kit.verify_types ps w
        ≡ (returned (deliver kit (record ps { verdict = verdict_value r }) w'.app), w')
  unfolding invoke_command verify_command
  invoke-verifies ps [] w w' r some_bytes has_buf lands = absurd (omega arith)
  invoke-verifies ps (b ∷ bs) w w' r some_bytes has_buf lands =
      rw (==_self kit.verify_types, has_buf) (ap (resume _) lands)

  idle_after :
      (buf : List ℕ) (k : ℕ) (r : Result ℕ Error) (s : Instance)
      → Yields (λ e s. At [] k s × IsFault e) (λ n s. At [] k s × Accepted sha256 word buf n) r s
      → At [] k s
  idle_after buf k (ok n) s h = h.0
  idle_after buf k (failed e) s h = h.0

  -- What a run against the trusted application does, for a verdict and a state that it leaves.
  pub record Checks (tee : Tee (World Instance)) (name_out : List ℕ) (label : String) (buf : List ℕ)
      (want : ℕ) (c : Client (World Instance)) (judge : Arm Instance (Result ℕ Error))
      : Type 0 where
    pub result : Result ℕ Error
    pub state : Instance
    pub judges : judge c.world ≡ (returned result, record c.world { app = state })
    pub counts :
        (run kit tee name_out label buf want c).failures
        ≡ (if (verdict_value result).0 == want then c.failures else c.failures + 1)
    pub leaves : (run kit tee name_out label buf want c).world ≡ record c.world { app = state }
    pub idle : At [] c.world.app.digests state

  run-Checks :
      (tee : Tee (World Instance)) (name_out : List ℕ) (label : String) (buf : List ℕ) (want : ℕ)
      (c : Client (World Instance))
      → Connects tee
      → length name_out ≡ 64
      → are_bytes buf ≡ true
      → length buf + max_image_bytes + 512 ≤ word
      → 0 < length buf
      → IsCarried p
      → c.world.thread.in_flight ≡ false
      → c.world.app.path ≡ []
      → length c.world.app.fault_name ≡ max_name + 1
      → Checks tee name_out label buf want c (verify_manifest p available sha256 word buf junk)
  unfolding run
  run-Checks tee name_out label buf want c connects sized bytes room some_bytes carried calm empty
        named =
      let l =
        verify_manifest_lem p available sha256 word buf bytes room junk c.world calm carried empty
          named in
      let idle = idle_after buf c.world.app.digests l.result l.state l.yields in
      let ps : Params = record cleared { buffer = some buf; out = name_out } in
      let verdict : Params = record ps { verdict = verdict_value l.result } in
      let after : World Instance = record c.world { app = l.state } in
      let reached = invoke-verifies ps buf c.world after l.result some_bytes refl l.lands in
      let (replies, moves) =
        connects.answers cmd_verify kit.verify_types ps c.world after _ reached in
      let checked =
        check_reply-idle kit label want verdict (reported_name l.state)
          (record c { world = after }) in
      record {
        result = l.result;
        state = l.state;
        judges = l.lands;
        counts =
            rw
              (
                connects.opens c.world,
                connects.opened c.world,
                replies,
                moves,
                deliver-idle kit verdict l.state idle.0 sized,
              )
              checked.0;
        leaves =
            rw
              (
                connects.opens c.world,
                connects.opened c.world,
                replies,
                moves,
                deliver-idle kit verdict l.state idle.0 sized,
              )
              checked.1;
        idle = idle;
      }

  -- A run on a manifest that is built of entries that fit, against the trusted application on a thread
  -- that is not unwinding and with an empty reference path, ends with one more failure if the fault
  -- that is wanted is not the one that the program over the entries comes to, and with none otherwise.
  -- It leaves the trusted application as that program leaves it, with the path empty and every hash
  -- operation freed.
  pub run_lem :
      (tee : Tee (World Instance)) (name_out : List ℕ) (label : String) (e : Spec) (es : List Spec)
      (b buf : List ℕ) (want : ℕ) (c : Client (World Instance))
      → Connects tee
      → length name_out ≡ 64
      → begin (length (e ∷ es)) magic 1 ≡ some b
      → entries b (e ∷ es) ≡ some buf
      → AllFit (e ∷ es)
      → length (e ∷ es) < 256
      → 0 < length e.name
      → are_bytes buf ≡ true
      → length buf + max_image_bytes + 512 ≤ word
      → 0 < length buf
      → IsCarried p
      → c.world.thread.in_flight ≡ false
      → c.world.app.path ≡ []
      → length c.world.app.fault_name ≡ max_name + 1
      → Checks tee name_out label buf want c (judge_manifest p available sha256 (e ∷ es) junk e)
  run_lem tee name_out label e es b buf want c connects sized begins writes fits few some_name bytes
        room some_bytes carried calm empty named =
      rw
        (sym (
          verify_manifest-judge p available sha256 word junk e es b buf begins writes fits few
            some_name (omega (arith, room))))
        (run-Checks tee name_out label buf want c connects sized bytes room some_bytes carried calm
          empty named)
