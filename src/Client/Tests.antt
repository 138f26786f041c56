-- ===== src/Client/Tests.antt =====
-- Runs of the client against the trusted application, with a digest that knows one image.
use jmpxx.Prelude.{
  ℕ, ◌^◌, ◌≡◌, refl, ap, true, Option, none, some, List, [], ◌∷◌, ◌++◌, arith, if◌then◌else◌, take,
  replicate,
}
use jmpxx.Prelude.Text.{same}
use jmpxx.Unwind.{idle, Exit, returned, World}
use jmpxx.Unwind.Escape.{eject, frame, escape_scope, copy_bytes, read_error}
use jmpxx.Unwind.Plain.{plain, plain-IsCarried}
use jmpxx.Manifest.Reader.{plus, has}
use jmpxx.Manifest.Find.{walk_body, walk_entry, find_from, find_entry}
use jmpxx.Manifest.Verify.{
  Instance, magic, note_name, enter_path, fail, visiting, allocate, descend, check_image,
  check_reference, under_digest, verify_entry, verify_first, verify_body, verify_manifest,
}
use jmpxx.Manifest.Session.{Kit, Reply, deliver, verify_command, invoke_command}
use jmpxx.Client.Builder.{Spec, image, put, begin, entry, entries, digest_img0, digest_wrong}
use jmpxx.Client.Layout.{AllFit, fit_none, fit_one, entries_bytes}
use jmpxx.Client.Judge.{judge_manifest}
use jmpxx.Client.Parsed.{verify_manifest-judge}
use jmpxx.Client.Drive.{
  Tee, Client, check_reply, check_layout, run, runs, report_layout, main, expect, fault_text,
  scenarios, chain, cleared, boot, runtime, app, spec,
}
use jmpxx.Client.Checked.{Connects, Checks, run_lem}

abbrev sha256 : List ℕ → List ℕ
sha256 bytes = if same bytes (take 4 image) then digest_img0 else replicate 32 0

abbrev started : World Instance
started = record {
  thread = idle;
  app = record {
    fault_name = replicate 25 0;
    entries_verified = 0;
    deepest = 0;
    path = [];
    digests = 0;
    allocations = 0;
  };
}

abbrev junk : List ℕ
junk = replicate 32 0

abbrev word : ℕ
word = 2 ^ 32

abbrev kit : Kit
kit = record {
  success = 0;
  bad_parameters = 1;
  not_supported = 2;
  short_buffer = 3;
  layout_types = 4;
  verify_types = 5;
}

-- A reply, or one that says that the trusted application is dead.
abbrev replied : Exit Reply → Reply
replied (returned reply) = reply
replied _ = record { status = 9; params = cleared }

abbrev tee : Tee (World Instance)
tee = record {
  initializes = true;
  opens = λ w. true;
  opened = λ w. w;
  invokes = λ cmd types ps w.
      replied (invoke_command kit plain (λ n. true) sha256 word junk cmd types ps w).0;
  invoked =
      λ cmd types ps w. (invoke_command kit plain (λ n. true) sha256 word junk cmd types ps w).1;
}

abbrev client : Client (World Instance)
client = record { failures = 0; lines = []; world = started }

abbrev status : Option (ℕ × Client (World Instance)) → Option (ℕ × ℕ)
status none = none
status (some (n, c)) = some (n, c.failures)

passes : status (main kit tee (replicate 64 1) client) ≡ some (0, 0)
unfolding main runs run scenarios report_layout check_layout check_reply expect fault_text put begin
    entry entries invoke_command verify_command deliver verify_manifest verify_body verify_first
    verify_entry under_digest check_reference check_image descend allocate visiting enter_path fail
    note_name find_entry find_from walk_entry walk_body has plus eject escape_scope frame copy_bytes
    read_error
passes = refl

abbrev bad : List Spec
bad = chain digest_wrong

abbrev header : List ℕ
header = magic ++ 1 ∷ 3 ∷ []

abbrev built : List ℕ
built = header ++ entries_bytes bad

begins : begin 3 magic 1 ≡ some header
unfolding begin put
begins = refl

writes : entries header bad ≡ some built
unfolding entries entry put
writes = refl

fits : AllFit bad
fits =
    fit_one _ _ (record { name_fits = omega arith; ref_fits = omega arith; digest_fits = refl })
      (fit_one _ _ (record { name_fits = omega arith; ref_fits = omega arith; digest_fits = refl })
        (fit_one _ _
          (record { name_fits = omega arith; ref_fits = omega arith; digest_fits = refl })
          fit_none))

abbrev first : Spec
first = spec boot digest_img0 (some runtime)

verify_manifest-judge_example :
    verify_manifest plain (λ n. true) sha256 word built junk
    ≡ judge_manifest plain (λ n. true) sha256 bad junk first
verify_manifest-judge_example =
    verify_manifest-judge plain (λ n. true) sha256 word junk first
      (spec runtime digest_img0 (some app) ∷ spec app digest_wrong none ∷ []) header built begins
      writes fits (omega arith) (omega arith) (omega arith)

tee-Connects : Connects kit plain (λ n. true) sha256 word junk tee
tee-Connects = record {
  opens = λ w. refl;
  opened = λ w. refl;
  answers = λ cmd types ps w w' reply e. (ap (λ x. replied x.0) e, ap (λ x. x.1) e);
}

run_lem_example :
    Checks kit plain
      (λ n. true)
      sha256
      word
      junk
      tee
      (replicate 64 1)
      "bad digest"
      built
      6
      client
      (judge_manifest plain (λ n. true) sha256 bad junk first)
run_lem_example =
    run_lem kit plain (λ n. true) sha256 word junk tee (replicate 64 1) "bad digest" first
      (spec runtime digest_img0 (some app) ∷ spec app digest_wrong none ∷ []) header built 6 client
      tee-Connects refl begins writes fits (omega arith) (omega arith) refl (omega arith)
      (omega arith) plain-IsCarried refl refl refl
