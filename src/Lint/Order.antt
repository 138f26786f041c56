-- ===== src/Lint/Order.antt =====
-- `operator<` of the findings of lint/jmpxx_lint.cpp, and the sort by it.
use mathlib.Core.Bool.{Bool-set}
use mathlib.Core.Logic.Or
use mathlib.Core.List.{Perm, Mem, mem-cons_self, eq-or-mem_of_mem-cons, not-mem-nil}
use mathlib.Core.List.Perm
use jmpxx.Prelude.{
  ℕ, zero, suc, ◌≡◌, refl, sym, ap, ◌∙◌, inl, inr, true, false, not, List, [], ◌∷◌, arith,
  if◌then◌else◌, Bool-cases, get_or,
}
use jmpxx.Prelude.Text.{String, same}
use jmpxx.Lint.{Check, check_rank, Finding, less_string, less, insert, sort}

string_asymm : (s t : String) → less_string s t ≡ true → less_string t s ≡ false
string_asymm s [] h = ground (arith, h)
string_asymm [] (d ∷ t) h = refl
string_asymm (c ∷ s) (d ∷ t) h = ground (arith, h, string_asymm s t)

string_trans :
    (s t u : String) → less_string t s ≡ false → less_string u t ≡ false → less_string u s ≡ false
string_trans [] t [] h g = refl
string_trans [] t (e ∷ u) h g = refl
string_trans (c ∷ s) [] u h g = ground (arith, h)
string_trans (c ∷ s) (d ∷ t) [] h g = ground (arith, g)
string_trans (c ∷ s) (d ∷ t) (e ∷ u) h g = ground (arith, h, g, string_trans s t u)

string_antisymm : (s t : String) → less_string s t ≡ false → less_string t s ≡ false → s ≡ t
string_antisymm [] [] h g = refl
string_antisymm [] (d ∷ t) h g = ground (arith, h)
string_antisymm (c ∷ s) [] h g = ground (arith, g)
string_antisymm (c ∷ s) (d ∷ t) h g = ground (arith, h, g, string_antisymm s t)

-- A finding as one string, with a terminator after the file.
abbrev after_file : String → String → String
after_file [] xs = 0 ∷ xs
after_file (c ∷ s) xs = suc c ∷ after_file s xs

abbrev key : Finding → String
key f = after_file f.file (f.line ∷ f.col ∷ check_rank f.check ∷ [])

less_string-after_file :
    (s t xs ys : String)
    → less_string (after_file s xs) (after_file t ys)
      ≡ (if not (same s t) then less_string s t else less_string xs ys)
less_string-after_file [] [] xs ys = ground arith
less_string-after_file [] (d ∷ t) xs ys = ground arith
less_string-after_file (c ∷ s) [] xs ys = ground arith
less_string-after_file (c ∷ s) (d ∷ t) xs ys = ground (arith, less_string-after_file s t xs ys)

less-key : (a b : Finding) → less a b ≡ less_string (key a) (key b)
unfolding less
less-key a b = ground (
  arith,
  less_string-after_file a.file b.file (a.line ∷ a.col ∷ check_rank a.check ∷ [])
      (b.line ∷ b.col ∷ check_rank b.check ∷ []),
)

after_file_injective :
    (s t xs ys : String) → after_file s xs ≡ after_file t ys → (s ≡ t) × (xs ≡ ys)
after_file_injective [] [] xs ys h = (refl, ground (arith, h))
after_file_injective [] (d ∷ t) xs ys h = ground (arith, h)
after_file_injective (c ∷ s) [] xs ys h = ground (arith, h)
after_file_injective (c ∷ s) (d ∷ t) xs ys h = ground (arith, h, after_file_injective s t xs ys)

abbrev of_rank : ℕ → Check
of_rank zero = Check.discarded_result
of_rank (suc zero) = Check.manual_propagation
of_rank (suc (suc n)) = Check.unchecked_access

of_rank-check_rank : (c : Check) → of_rank (check_rank c) ≡ c
of_rank-check_rank Check.discarded_result = refl
of_rank-check_rank Check.manual_propagation = refl
of_rank-check_rank Check.unchecked_access = refl

check_rank_injective : (c d : Check) → check_rank c ≡ check_rank d → c ≡ d
check_rank_injective c d h = sym (of_rank-check_rank c) ∙ ap of_rank h ∙ of_rank-check_rank d

pub less_antisymm : (a b : Finding) → less a b ≡ false → less b a ≡ false → a ≡ b
less_antisymm a b h g =
    let same_key =
      after_file_injective a.file b.file _ _
        (string_antisymm (key a) (key b) (sym (less-key a b) ∙ h) (sym (less-key b a) ∙ g)) in
    ap (λ f. record { file = f; line = a.line; col = a.col; check = a.check }) same_key.0
    ∙ ap (λ n. record { file = b.file; line = n; col = a.col; check = a.check })
        (ap (λ l. get_or l 0 0) same_key.1)
    ∙ ap (λ n. record { file = b.file; line = b.line; col = n; check = a.check })
        (ap (λ l. get_or l 1 0) same_key.1)
    ∙ ap (λ c. record { file = b.file; line = b.line; col = b.col; check = c })
        (check_rank_injective a.check b.check (ap (λ l. get_or l 2 0) same_key.1))

pub less_asymm : (a b : Finding) → less a b ≡ true → less b a ≡ false
less_asymm a b h = less-key b a ∙ string_asymm (key a) (key b) (sym (less-key a b) ∙ h)

pub less_trans : (a b c : Finding) → less b a ≡ false → less c b ≡ false → less c a ≡ false
less_trans a b c h g =
    less-key c a
    ∙ string_trans (key a) (key b) (key c) (sym (less-key b a) ∙ h) (sym (less-key c b) ∙ g)

-- No finding of the list is before `f`.
pub data AllFrom (f : Finding) : List Finding → Type 0 where
  from_nil : AllFrom f []
  from_cons :
      (g : Finding) (gs : List Finding) → less g f ≡ false → AllFrom f gs → AllFrom f (g ∷ gs)

pub data IsSorted : List Finding → Type 0 where
  sorted_nil : IsSorted []
  sorted_cons : (f : Finding) (fs : List Finding) → AllFrom f fs → IsSorted fs → IsSorted (f ∷ fs)

weaken-AllFrom :
    (f g : Finding) (gs : List Finding) → less g f ≡ false → AllFrom g gs → AllFrom f gs
weaken-AllFrom f g [] h from_nil = from_nil
weaken-AllFrom f g (x ∷ gs) h (from_cons _ _ e a) =
    from_cons x gs (less_trans f g x h e) (weaken-AllFrom f g gs h a)

less_irrefl : (f : Finding) → less f f ≡ false
less_irrefl f = elim (Bool-cases (less f f)) [
  | inl before ↦ less_asymm f f before
  | inr after ↦ after
]

insert-AllFrom :
    (x f : Finding) (fs : List Finding) → less f x ≡ false → AllFrom x fs → AllFrom x (insert f fs)
unfolding insert
insert-AllFrom x f [] h a = from_cons f [] h a
insert-AllFrom x f (g ∷ gs) h (from_cons _ _ e a) = elim (Bool-cases (less g f)) [
  | inl before ↦ rw before (from_cons g (insert f gs) e (insert-AllFrom x f gs h a))
  | inr after ↦ rw after (from_cons f (g ∷ gs) h (from_cons g gs e a))
]

insert-IsSorted : (f : Finding) (fs : List Finding) → IsSorted fs → IsSorted (insert f fs)
unfolding insert
insert-IsSorted f [] sorted_nil = sorted_cons f [] from_nil sorted_nil
insert-IsSorted f (g ∷ gs) (sorted_cons _ _ a s) = elim (Bool-cases (less g f)) [
  | inl before ↦ rw before (
      sorted_cons g (insert f gs) (insert-AllFrom g f gs (less_asymm g f before) a)
        (insert-IsSorted f gs s))
  | inr after ↦ rw after (
      sorted_cons f (g ∷ gs) (from_cons g gs after (weaken-AllFrom f g gs after a))
        (sorted_cons g gs a s))
]

pub sort-IsSorted : (fs : List Finding) → IsSorted (sort fs)
unfolding sort
sort-IsSorted [] = sorted_nil
sort-IsSorted (f ∷ fs) = insert-IsSorted f (sort fs) (sort-IsSorted fs)

insert-Perm : (f : Finding) (fs : List Finding) → Perm (insert f fs) (f ∷ fs)
unfolding insert
insert-Perm f [] = Perm.rfl
insert-Perm f (g ∷ gs) = elim (Bool-cases (less g f)) [
  | inl before ↦ rw before (Perm.trans (Perm.cons g (insert-Perm f gs)) (Perm.swap f g gs))
  | inr after ↦ rw after Perm.rfl
]

pub sort-Perm : (fs : List Finding) → Perm (sort fs) fs
unfolding sort
sort-Perm [] = Perm.rfl
sort-Perm (f ∷ fs) = Perm.trans (insert-Perm f (sort fs)) (Perm.cons f (sort-Perm fs))

AllFrom-Mem :
    (f : Finding) (gs : List Finding) → AllFrom f gs → (x : Finding) → Mem x gs → less x f ≡ false
AllFrom-Mem f [] a x m = absurd (not-mem-nil m)
AllFrom-Mem f (g ∷ gs) (from_cons _ _ e a) x m =
    Or.elim (Bool-set _ _) (eq-or-mem_of_mem-cons m) (λ same_one. ap (λ y. less y f) same_one ∙ e)
      (AllFrom-Mem f gs a x)

head-first : (f x : Finding) (fs : List Finding) → AllFrom f fs → Mem x (f ∷ fs) → less x f ≡ false
head-first f x fs a m = AllFrom-Mem f (f ∷ fs) (from_cons f fs (less_irrefl f) a) x m

-- The sorted lists of the same findings are one list.
pub IsSorted-eq_of_Perm : (fs gs : List Finding) → IsSorted fs → IsSorted gs → Perm fs gs → fs ≡ gs
IsSorted-eq_of_Perm [] gs s t p = sym (Perm.eq-nil (Perm.symm p))
IsSorted-eq_of_Perm (f ∷ fs) [] s t p = Perm.eq-nil p
IsSorted-eq_of_Perm (f ∷ fs) (g ∷ gs) (sorted_cons _ _ a s) (sorted_cons _ _ b t) p =
    let heads =
      less_antisymm f g (head-first g f gs b ((Perm.mem_iff p).0 mem-cons_self))
        (head-first f g fs a ((Perm.mem_iff (Perm.symm p)).0 mem-cons_self)) in
    let tails = Perm.cons_inv (Perm.trans p (Perm.symm (Perm.cons' heads Perm.rfl))) in
    ap (λ x. x ∷ fs) heads ∙ ap (λ l. g ∷ l) (IsSorted-eq_of_Perm fs gs s t tails)
