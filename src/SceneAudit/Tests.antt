-- ===== src/SceneAudit/Tests.antt =====
-- Audits of small trees. A location is a number.
use jmpxx.Prelude.{ℕ, ◌≡◌, refl, false, [], arith, replicate}
use jmpxx.Prelude.Codes.{codes}
use jmpxx.Prelude.Int.{pos, negsuc}
use jmpxx.Core.Hardening.{fast}
use jmpxx.Platform.Trace.{Trace, zeroed}
use jmpxx.Diagnostic.Store.{Record, max_chain, initial}
use jmpxx.Diagnostic.Store.Invariant.{initial-IsValid}
use jmpxx.Diagnostic.Store.Fresh.{initial-IsFresh}
use jmpxx.SceneAudit.{Fault, Node, node, leaf, child, Sites, set_max_depth}
use jmpxx.SceneAudit.Preorder.{preorder, scan, hit}
use jmpxx.SceneAudit.Landing.{Audits, audit_lem}

abbrev blank : Record ℕ Trace
blank = record {
  id = 0;
  origin = 0;
  hops = replicate max_chain 0;
  hop_count = 0;
  hops_truncated = false;
  trace = zeroed;
}

abbrev sites : Sites ℕ
sites = record { fault_site = 37; name_site = 83; child_site = 89 }

abbrev door : Node
door = node (codes "door") leaf

-- The door of the yard has the name of the house's.
abbrev house : Node
house = node (codes "house") (child door (child (node (codes "yard") (child door leaf)) leaf))

second_door : scan 8 [] (preorder 0 house) ≡ hit Fault.duplicate_name (codes "door") 2
second_door = refl

clamped :
    (set_max_depth (negsuc 4) ≡ pos 1)
    × (set_max_depth (pos 9) ≡ pos 9)
    × (set_max_depth (pos 100) ≡ pos 64)
unfolding set_max_depth
clamped = (refl, refl, refl)

audit_lem_example :
    Audits sites zeroed fast 8 0 false
      (initial blank)
      (initial-IsValid blank (record { counted = omega arith; sized = refl }))
      (initial-IsFresh blank)
      (omega arith)
      (omega arith)
      house
audit_lem_example =
    audit_lem sites zeroed fast 8 0 false (initial blank)
      (initial-IsValid blank (record { counted = omega arith; sized = refl }))
      (initial-IsFresh blank) (omega arith) (omega arith) house (omega arith)
