-- ===== src/Manifest/Serving.antt =====
-- What the clients of the trusted application of reference_app/optee_ta learn from the invocations of
-- one instance, which enter on several threads.
use mathlib.Core.Path.{fun_ext}
use jmpxx.Prelude.{
  ℕ, ◌+◌, ◌≡◌, refl, ap, ◌∙◌, Bool, List, [], ◌∷◌, arith, ◌==◌, if◌then◌else◌, length,
}
use jmpxx.Core.Error.{Error}
use jmpxx.Unwind.{Thread, Exit, Arm, returned, idle}
use jmpxx.Unwind.Escape.{Payload, IsCarried}
use jmpxx.Manifest.Verify.{Instance, max_name}
use jmpxx.Manifest.Owners.{At}
use jmpxx.Manifest.Session.{
  Kit, Reply, Request, Secure, enter, add_reply, follow_reply, serve, create,
}
use jmpxx.Manifest.Replies.{Answers, Fits, invoke_command-Replies}

pub data Served (kit : Kit) (sha256 : List ℕ → List ℕ) (word : ℕ)
    : List (ℕ × Request) → List Reply → Type 0 where
  served_none : Served kit sha256 word [] []
  served_one :
      (i : ℕ) (r : Request) (reply : Reply) (rs : List (ℕ × Request)) (replies : List Reply)
      → Answers kit sha256 word r.params reply
      → Served kit sha256 word rs replies
      → Served kit sha256 word ((i, r) ∷ rs) (reply ∷ replies)

-- Every buffer fits, and every thread that enters has its block of thread-local storage, with the
-- values that the program gives it. A thread whose block the environment has not established, on which
-- verify_client.c and the README of the application report invocations that die, is none of these.
pub data AllReady (word : ℕ) (threads : ℕ → Thread) : List (ℕ × Request) → Type 0 where
  ready_none : AllReady word threads []
  ready_one :
      (i : ℕ) (r : Request) (rs : List (ℕ × Request))
      → Fits word r.params.buffer
      → threads i ≡ idle
      → AllReady word threads rs
      → AllReady word threads ((i, r) ∷ rs)

-- A thread that is left as it was is the same thread.
enter-returned :
    {A : Type 0} (i : ℕ) (body : Arm Instance A) (m : Secure) (a : A) (s : Instance)
    → body (record { thread = m.threads i; app = m.app })
      ≡ (returned a, record { thread = m.threads i; app = s })
    → enter i body m ≡ (returned a, record m { app = s })
unfolding enter
enter-returned i body m a s runs = rw runs (
    ap (λ (threads : ℕ → Thread). (returned a, record { threads = threads; app = s }))
      (fun_ext (λ j. same_thread j)))
  where
    same_thread : (j : ℕ) → (if j == i then m.threads i else m.threads j) ≡ m.threads j
    same_thread j = ground arith

module _ (kit : Kit) (p : Payload Error) (available : ℕ → Bool) (sha256 : List ℕ → List ℕ)
    (word : ℕ) (junk : List ℕ) (carried : IsCarried p) where
  serve-Served :
      (rs : List (ℕ × Request)) (k : ℕ) (m : Secure)
      → AllReady word m.threads rs
      → At [] k m.app
      → (replies : List Reply) × (s : Instance) × (serve kit p available sha256 word junk rs m
          ≡ (returned replies, record m { app = s }))
        × At [] k s
        × Served kit sha256 word rs replies
  unfolding serve
  serve-Served [] k m ready h = ([], m.app, refl, h, served_none)
  serve-Served ((i, r) ∷ rs) k m (ready_one _ _ _ fits block rest) h =
      let one =
        invoke_command-Replies kit p available sha256 word junk carried r.cmd r.types r.params k
          (record { thread = m.threads i; app = m.app }) fits (ap (λ t. t.in_flight) block) h in
      let more = serve-Served rs k (record m { app = one.state }) rest one.idle in
      (
        one.reply ∷ more.0,
        more.1,
        ap (λ x. follow_reply x (serve kit p available sha256 word junk rs))
              (enter-returned i _ m one.reply one.state one.runs)
            ∙ ap (add_reply one.reply) more.2,
        more.3,
        served_one i r one.reply rs more.0 one.answers more.4,
      )

  -- The instance is created on some thread, and is then invoked by any number of clients, one
  -- invocation after the other, each entering on any thread whose block of thread-local storage is
  -- established. Then every invocation is answered, whatever faults the ones before it met: with a
  -- refusal, with the layout, or with a verdict, which is zero only for a manifest that is accepted,
  -- and then tells the number of its entries. A name that is delivered is followed by a NUL and by a
  -- zero, the length of the reference path. At the end every thread is as it was, the path is empty and
  -- every hash operation is freed.
  pub serve_lem :
      (i : ℕ) (rs : List (ℕ × Request)) (m : Secure)
      → AllReady word m.threads rs
      → length m.app.fault_name ≡ max_name + 1
      → (replies : List Reply) × (s : Instance) × (serve kit p available sha256 word junk rs
            (enter i create m).1
          ≡ (returned replies, record m { app = s }))
        × (s.path ≡ [])
        × (s.digests ≡ m.app.digests)
        × Served kit sha256 word rs replies
  unfolding create
  serve_lem i rs m ready sized =
      let made = record m { app = record m.app { path = [] } } in
      let all = serve-Served rs m.app.digests made ready (refl, refl, sized) in
      (
        all.0,
        all.1,
        ap (λ (x : Exit (Unit {0}) × Secure). serve kit p available sha256 word junk rs x.1)
              (enter-returned i create m tt made.app refl)
            ∙ all.2,
        all.3.0,
        all.3.1,
        all.4,
      )
