-- ===== src/Manifest/Tests.antt =====
-- Runs of the trusted application on small manifests, with a digest that repeats the first byte.
use jmpxx.Prelude.{
  ℕ, ◌^◌, ◌≡◌, refl, true, some, List, [], ◌∷◌, ◌++◌, arith, length, get_or, replicate, ltb,
  if◌then◌else◌,
}
use jmpxx.Prelude.Int.{pos}
use jmpxx.Core.Transport.Refines.{ok, failed}
use jmpxx.Unwind.{idle, returned, World}
use jmpxx.Unwind.Escape.{eject, frame, escape_scope, copy_bytes, read_error}
use jmpxx.Unwind.Plain.{plain, plain-IsCarried}
use jmpxx.Unwind.Triple.{Landed}
use jmpxx.Manifest.Reader.{plus, has}
use jmpxx.Manifest.Find.{walk_body, walk_entry, find_from, find_entry}
use jmpxx.Manifest.Entries.{Accepted}
use jmpxx.Manifest.Verify.{
  Instance, note_name, enter_path, fail, visiting, allocate, descend, check_image, check_reference,
  under_digest, verify_entry, verify_first, verify_body, verify_manifest,
}
use jmpxx.Manifest.Owners.{At, IsFault}
use jmpxx.Manifest.Sound.{verify_manifest_lem}
use jmpxx.Manifest.Session.{Kit, Request, Reply, Secure, enter, serve, create}
use jmpxx.Manifest.Serving.{Served, AllReady, ready_none, ready_one, serve_lem}

abbrev sha256 : List ℕ → List ℕ
sha256 bytes = replicate 32 (get_or bytes 0 0)

-- An entry with a name of one character, an image of one byte, and a reference.
abbrev entry : ℕ → ℕ → List ℕ → ℕ → List ℕ
entry name digest ref image =
    1 ∷ name ∷ 1 ∷ 0 ∷ 0 ∷ 0 ∷ (replicate 32 digest ++ (length ref ∷ (ref ++ image ∷ [])))

-- "MFST", the version and two entries, of which the first refers to the second.
abbrev manifest : ℕ → List ℕ
manifest digest = 77 ∷ 70 ∷ 83 ∷ 84 ∷ 1 ∷ 2 ∷ (entry 97 5 (98 ∷ []) 5 ++ entry 98 digest [] 7)

abbrev started : World Instance
started = record {
  thread = idle;
  app = record {
    fault_name = replicate 25 0;
    entries_verified = 0;
    deepest = 0;
    path = [];
    digests = 0;
    allocations = 0;
  };
}

abbrev junk : List ℕ
junk = replicate 32 0

abbrev word : ℕ
word = 2 ^ 32

good_manifest : verify_manifest plain (λ n. true) sha256 word (manifest 7) junk started ≡ (
  returned (ok 2),
  record started {
    app = record started.app { entries_verified = 2; deepest = 1; allocations = 2 };
  },
)
unfolding verify_manifest verify_body verify_first verify_entry under_digest check_reference
    check_image descend allocate visiting enter_path fail note_name find_entry find_from walk_entry
    walk_body has plus escape_scope frame
good_manifest = refl

bad_digest : verify_manifest plain (λ n. true) sha256 word (manifest 8) junk started ≡ (
  returned (failed (record { code = pos 6; domain = pos 1 })),
  record started {
    app = record started.app { fault_name = 98 ∷ replicate 24 0; deepest = 1; allocations = 2 };
  },
)
unfolding verify_manifest verify_body verify_first verify_entry under_digest check_reference
    check_image descend allocate visiting enter_path fail note_name find_entry find_from walk_entry
    walk_body has plus eject escape_scope frame copy_bytes read_error
bad_digest = refl

verify_manifest_lem_example :
    Landed
      (λ e s. At [] 0 s × IsFault e)
      (λ n s. At [] 0 s × Accepted sha256 word (manifest 8) n)
      started
      (verify_manifest plain (λ n. true) sha256 word (manifest 8) junk started)
verify_manifest_lem_example =
    verify_manifest_lem plain (λ n. true) sha256 word (manifest 8) refl (omega arith) junk started
      refl plain-IsCarried refl refl

abbrev kit : Kit
kit = record {
  success = 0;
  bad_parameters = 1;
  not_supported = 2;
  short_buffer = 3;
  layout_types = 4;
  verify_types = 5;
}

abbrev request : ℕ → Request
request digest = record {
  cmd = 0;
  types = 5;
  params = record {
    layout = (0, 0);
    buffer = some (manifest digest);
    verdict = (0, 0);
    out = replicate 32 1;
  };
}

-- Two threads have a block, the others hold what is no such state.
abbrev secure : Secure
secure = record {
  threads =
      λ i. if ltb i 2 then idle else record { carriers = []; active = some 9; in_flight = true };
  app = started.app;
}

-- The first manifest has a wrong digest, and the second, which enters on the other thread, has not.
abbrev requests : List (ℕ × Request)
requests = (0, request 8) ∷ (1, request 7) ∷ []

requests-AllReady : AllReady word secure.threads requests
requests-AllReady =
    ready_one 0 (request 8) ((1, request 7) ∷ []) (refl, omega arith) refl
      (ready_one 1 (request 7) [] (refl, omega arith) refl ready_none)

serve_lem_example :
    (replies : List Reply) × (s : Instance) × (serve kit plain
        (λ n. true)
        sha256
        word
        junk
        requests
        (enter 0 create secure).1
      ≡ (returned replies, record secure { app = s }))
    × (s.path ≡ [])
    × (s.digests ≡ 0)
    × Served kit sha256 word requests replies
serve_lem_example =
    serve_lem kit plain (λ n. true) sha256 word junk plain-IsCarried 0 requests secure
      requests-AllReady refl
