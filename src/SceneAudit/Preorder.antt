-- ===== src/SceneAudit/Preorder.antt =====
-- What reference_app/godot_module/scene_audit.cpp is to find: the first fault among a tree's nodes, each
-- with its depth, a parent before its children.
use jmpxx.Prelude.{
  ℕ, ◌+◌, ◌≡◌, refl, inl, inr, Option, none, some, List, [], ◌∷◌, ◌++◌, ltb, if◌then◌else◌,
  Bool-cases,
}
use jmpxx.Prelude.Text.{String, is_prefix}
use jmpxx.SceneAudit.{
  Fault, too_deep, duplicate_name, empty_name, reserved_prefix, Node, Nodes, node, leaf, child, has,
  tmp_prefix,
}

abbrev mutual
  pub preorder : ℕ → Node → List (String × ℕ)
  preorder depth (node name children) = (name, depth) ∷ preorder_all (depth + 1) children

  pub preorder_all : ℕ → Nodes → List (String × ℕ)
  preorder_all depth leaf = []
  preorder_all depth (child c cs) = preorder depth c ++ preorder_all depth cs

abbrev mutual
  pub size : Node → ℕ
  size (node name children) = 1 + size_all children

  pub size_all : Nodes → ℕ
  size_all leaf = 0
  size_all (child c cs) = size c + size_all cs

-- What is wrong with a name.
abbrev pub name_fault : List String → String → Option Fault
name_fault seen [] = some empty_name
name_fault seen (c ∷ cs) =
    if is_prefix tmp_prefix (c ∷ cs)
    then some reserved_prefix
    else if has (c ∷ cs) seen
    then some duplicate_name
    else none

-- No fault, with the names that are seen by then; or the first fault, with the name and the depth.
pub data Scan : Type 0 where
  clear : List String → Scan
  hit : Fault → String → ℕ → Scan

abbrev pub judged : Option Fault → Scan → String → ℕ → Scan
judged none rest name depth = rest
judged (some f) rest name depth = hit f name depth

abbrev pub scan : ℕ → List String → List (String × ℕ) → Scan
scan max_depth seen [] = clear seen
scan max_depth seen ((name, depth) ∷ nodes) =
    let rest = scan max_depth (name ∷ seen) nodes in
    if ltb max_depth depth
    then hit too_deep name depth
    else judged (name_fault seen name) rest name depth

abbrev pub then_scan : ℕ → Scan → List (String × ℕ) → Scan
then_scan max_depth (clear seen) nodes = scan max_depth seen nodes
then_scan max_depth (hit f name depth) nodes = hit f name depth

pub scan-append :
    (max_depth : ℕ) (seen : List String) (xs ys : List (String × ℕ))
    → scan max_depth seen (xs ++ ys) ≡ then_scan max_depth (scan max_depth seen xs) ys
scan-append max_depth seen [] ys = refl
scan-append max_depth seen ((name, depth) ∷ xs) ys = elim (Bool-cases (ltb max_depth depth)) [
  | inl deep ↦ rw deep
  | inr shallow ↦
      rw shallow (judge (name_fault seen name) _ _ (scan-append max_depth (name ∷ seen) xs ys))
]
  where
    judge :
        (f : Option Fault) (r t : Scan)
        → t ≡ then_scan max_depth r ys
        → judged f t name depth ≡ then_scan max_depth (judged f r name depth) ys
    judge none r t e = e
    judge (some f) r t e = refl
