-- ===== src/Manifest/Replies.antt =====
-- What a client of the trusted application of reference_app/optee_ta learns from its invocations.
use jmpxx.Prelude.{
  ℕ, ◌+◌, ◌%◌, ◌^◌, ◌≤◌, ◌<◌, ◌≡◌, refl, ap, ◌∙◌, ◌⊎◌, inl, inr, Bool, true, false, not, Option,
  none, some, List, [], ◌∷◌, ◌++◌, arith, ltb, ◌==◌, if◌then◌else◌, Bool-cases, length,
}
use jmpxx.Prelude.Int.{to_unsigned}
use jmpxx.Prelude.Text.{String}
use jmpxx.Core.Error.{Error}
use jmpxx.Core.Transport.Refines.{Result, ok, failed}
use jmpxx.Unwind.{World, Arm, returned, resume}
use jmpxx.Unwind.Escape.{Payload, IsCarried}
use jmpxx.Unwind.Triple.{Yields}
use jmpxx.Manifest.Reader.{are_bytes}
use jmpxx.Manifest.Entries.{Accepted}
use jmpxx.Manifest.Verify.{Instance, Fault, fault_code, max_image_bytes}
use jmpxx.Manifest.Owners.{At, IsFault}
use jmpxx.Manifest.Sound.{verify_manifest_lem}
use jmpxx.Manifest.Session.{
  Kit, Params, Reply, layout_value, verdict_value, reported_name, deliver, verify_command,
  invoke_command, cmd_layout, cmd_verify,
}

-- The third parameter gets the name, a NUL and a zero for the empty path, if it has room for them.
pub data Delivered (kit : Kit) (ps : Params) : Reply → Type 0 where
  delivered_short :
      (name : String)
      → length ps.out < length name + 2
      → Delivered kit ps (record { status = kit.short_buffer; params = ps })
  delivered :
      (name : String)
      → length name + 2 ≤ length ps.out
      → Delivered kit ps
          (record { status = kit.success; params = record ps { out = name ++ 0 ∷ 0 ∷ [] } })

-- The answer to an invocation: a refusal, the layout, or a verdict. The verdict has a zero only for a
-- manifest that is accepted.
pub data Answers (kit : Kit) (sha256 : List ℕ → List ℕ) (word : ℕ) (ps : Params)
    : Reply → Type 0 where
  answers_refusal :
      (status : ℕ)
      → (status ≡ kit.bad_parameters) ⊎ (status ≡ kit.not_supported)
      → Answers kit sha256 word ps (record { status = status; params = ps })
  answers_layout :
      Answers kit sha256 word ps
        (record { status = kit.success; params = record ps { layout = layout_value } })
  answers_accepted :
      (buf : List ℕ) (n : ℕ) (r : Reply)
      → ps.buffer ≡ some buf
      → Accepted sha256 word buf n
      → Delivered kit (record ps { verdict = (0, n % 2 ^ 32) }) r
      → Answers kit sha256 word ps r
  answers_fault :
      (f : Fault) (depth : ℕ) (r : Reply)
      → Delivered kit (record ps { verdict = (fault_code f, depth) }) r
      → Answers kit sha256 word ps r

-- The buffers hold bytes, and leave the sums of `size_t` room for an image and a header.
abbrev pub Fits : ℕ → Option (List ℕ) → Type 0
Fits word none = Unit {0}
Fits word (some buf) = (are_bytes buf ≡ true) × (length buf + max_image_bytes + 512 ≤ word)

code_kept : (f : Fault) → fault_code f % 2 ^ 32 ≡ fault_code f
code_kept Fault.manifest_truncated = refl
code_kept Fault.header_bad = refl
code_kept Fault.version_unsupported = refl
code_kept Fault.entry_malformed = refl
code_kept Fault.length_implausible = refl
code_kept Fault.digest_mismatch = refl
code_kept Fault.reference_missing = refl
code_kept Fault.reference_cycle = refl
code_kept Fault.nesting_too_deep = refl
code_kept Fault.digest_unavailable = refl

deliver-Delivered :
    (kit : Kit) (ps : Params) (s : Instance) → s.path ≡ [] → Delivered kit ps (deliver kit ps s)
unfolding deliver
deliver-Delivered kit ps s empty =
    elim (Bool-cases (ltb (length ps.out) (length (reported_name s) + 2))) [
      | inl short ↦ rw short (delivered_short (reported_name s) (ground (arith, short)))
      | inr room ↦ rw (room, empty) (delivered (reported_name s) (ground (arith, room)))
    ]

module _ (kit : Kit) (p : Payload Error) (available : ℕ → Bool) (sha256 : List ℕ → List ℕ)
    (word : ℕ) (junk : List ℕ) (carried : IsCarried p) where
  -- How an invocation in `w` ends.
  pub record Replies (ps : Params) (k : ℕ) (w : World Instance) (x : Arm Instance Reply)
      : Type 0 where
    pub reply : Reply
    pub state : Instance
    pub runs : x w ≡ (returned reply, record w { app = state })
    pub idle : At [] k state
    pub answers : Answers kit sha256 word ps reply

  refuses :
      (ps : Params) (k : ℕ) (w : World Instance) (status : ℕ)
      → (status ≡ kit.bad_parameters) ⊎ (status ≡ kit.not_supported)
      → At [] k w.app
      → Replies ps k w (λ v. (returned (record { status = status; params = ps }), v))
  refuses ps k w status why h = record {
    reply = record { status = status; params = ps };
    state = w.app;
    runs = refl;
    idle = h;
    answers = answers_refusal status why;
  }

  verdict-Answers :
      (ps : Params) (k : ℕ) (buf : List ℕ) (r : Result ℕ Error) (s : Instance)
      → ps.buffer ≡ some buf
      → Yields (λ e s. At [] k s × IsFault e) (λ n s. At [] k s × Accepted sha256 word buf n) r s
      → At [] k s
        × Answers kit sha256 word ps (deliver kit (record ps { verdict = verdict_value r }) s)
  verdict-Answers ps k buf (ok n) s has_buf h =
      (h.0, answers_accepted buf n _ has_buf h.1 (deliver-Delivered kit _ s h.0.0))
  verdict-Answers ps k buf (failed e) s has_buf h =
      let code = ap to_unsigned h.1.1 ∙ code_kept h.1.0 in
      (
        h.0,
        answers_fault h.1.0 (to_unsigned e.domain) _ (rw code (deliver-Delivered kit _ s h.0.0)),
      )

  verify_command-Replies :
      (ps : Params) (k : ℕ) (w : World Instance) (buffer : Option (List ℕ))
      → ps.buffer ≡ buffer
      → Fits word buffer
      → w.thread.in_flight ≡ false
      → At [] k w.app
      → Replies ps k w (verify_command kit p available sha256 word junk ps buffer)
  unfolding verify_command
  verify_command-Replies ps k w none e fits calm h = refuses ps k w kit.bad_parameters (inl refl) h
  verify_command-Replies ps k w (some []) e fits calm h =
      refuses ps k w kit.bad_parameters (inl refl) h
  verify_command-Replies ps k w (some (b ∷ bs)) e fits calm h =
      let l =
        verify_manifest_lem p available sha256 word (b ∷ bs) fits.0 fits.1 junk w calm carried h.0
          h.2 in
      let a = verdict-Answers ps w.app.digests (b ∷ bs) l.result l.state e l.yields in
      record {
        reply = deliver kit (record ps { verdict = verdict_value l.result }) l.state;
        state = l.state;
        runs = ap (resume _) l.lands;
        idle = (a.0.0, a.0.1 ∙ h.1, a.0.2);
        answers = a.1;
      }

  pub invoke_command-Replies :
      (cmd types : ℕ) (ps : Params) (k : ℕ) (w : World Instance)
      → Fits word ps.buffer
      → w.thread.in_flight ≡ false
      → At [] k w.app
      → Replies ps k w (invoke_command kit p available sha256 word junk cmd types ps)
  unfolding invoke_command
  invoke_command-Replies cmd types ps k w fits calm h =
      if-Replies (cmd == cmd_layout)
        (if-Replies (not (types == kit.layout_types))
          (refuses ps k w kit.bad_parameters (inl refl) h)
          (record {
            reply = record { status = kit.success; params = record ps { layout = layout_value } };
            state = w.app;
            runs = refl;
            idle = h;
            answers = answers_layout;
          }))
        (if-Replies (not (cmd == cmd_verify)) (refuses ps k w kit.not_supported (inr refl) h) (
          if-Replies (not (types == kit.verify_types))
            (refuses ps k w kit.bad_parameters (inl refl) h)
            (verify_command-Replies ps k w ps.buffer refl fits calm h)))
    where
      if-Replies :
          (b : Bool) {m n : Arm Instance Reply}
          → Replies ps k w m
          → Replies ps k w n
          → Replies ps k w (if b then m else n)
      if-Replies true hm hn = hm
      if-Replies false hm hn = hn
