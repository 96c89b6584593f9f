-- ===== src/Base/Count.antt =====
-- Counting in a list of pointers: what counts do not see is the order.
use mathlib.Core.Logic.{∥∥₁_elim}
use mathlib.Core.List.{Permᴰ}
use native.Mathlib.Nat.{ℕ_set}
use chaos_kvs.Base.Tests.{nat_eq, ltb, if◌then◌else◌}
use chaos_kvs.Base.Lists.{length, take}
use Prim.Native.Nat.{ℕ, zero, suc, ◌+◌, ◌≤◌}
use mathlib.Core.Path.{◌≡◌, refl, sym, ap, ◌∙◌}
use mathlib.Core.Bool.{Bool, true}
use mathlib.Core.List.{List, [], ◌∷◌, Perm}
use native.Mathlib.Omega.{arith}

abbrev pub count_if {ℓ} : {A : Type ℓ} → (A → Bool) → List A → ℕ
count_if f [] = 0
count_if f (x ∷ xs) = (if f x then 1 else 0) + count_if f xs

count_if-permᴰ {ℓ} :
    {A : Type ℓ} (f : A → Bool) {xs ys : List A} → Permᴰ xs ys → count_if f xs ≡ count_if f ys
count_if-permᴰ f Permᴰ.nil = refl
count_if-permᴰ f (Permᴰ.cons e p) = ground (arith, ap f e, count_if-permᴰ f p)
count_if-permᴰ f (Permᴰ.swap e d) = ground (arith, ap f e, ap f d)
count_if-permᴰ f (Permᴰ.trans p q) = count_if-permᴰ f p ∙ count_if-permᴰ f q

pub count_if-perm {ℓ} :
    {A : Type ℓ} (f : A → Bool) {xs ys : List A} → Perm xs ys → count_if f xs ≡ count_if f ys
count_if-perm f p = ∥∥₁_elim p (ℕ_set _ _) (count_if-permᴰ f)

all_counted {ℓ} : {A : Type ℓ} (xs : List A) → count_if (λ x. true) xs ≡ length xs
all_counted [] = refl
all_counted (x ∷ xs) = omega (arith, all_counted xs)

pub length-perm {ℓ} : {A : Type ℓ} {xs ys : List A} → Perm xs ys → length xs ≡ length ys
length-perm {xs = xs} {ys = ys} p =
    sym (all_counted xs) ∙ (count_if-perm (λ x. true) p ∙ all_counted ys)

-- How often a pointer stands in a list, and whether it does.
abbrev pub occurs : ℕ → List ℕ → ℕ
occurs p = count_if (nat_eq p)

abbrev pub has : ℕ → List ℕ → Bool
has p xs = ltb 0 (occurs p xs)

-- Tests that agree on what the list holds count alike.
pub count_if-cong :
    (f g : ℕ → Bool) (xs : List ℕ)
    → ((q : ℕ) → has q xs ≡ true → f q ≡ g q)
    → count_if f xs ≡ count_if g xs
count_if-cong f g [] h = refl
count_if-cong f g (x ∷ xs) h = ground (arith, h x, count_if-cong f g xs (λ q e. h q (ground arith)))

-- No pointer stands there twice.
abbrev pub Once : List ℕ → Type 0
Once xs = (p : ℕ) → occurs p xs ≤ 1

-- The elements that pass a test, in order.
abbrev pub filter_by : (ℕ → Bool) → List ℕ → List ℕ
filter_by f [] = []
filter_by f (x ∷ xs) = let rest = filter_by f xs in if f x then x ∷ rest else rest

pub length-filter_by : (f : ℕ → Bool) (xs : List ℕ) → length (filter_by f xs) ≡ count_if f xs
length-filter_by f [] = refl
length-filter_by f (x ∷ xs) = ground (arith, length-filter_by f xs)

pub occurs-filter_by :
    (f : ℕ → Bool) (q : ℕ) (xs : List ℕ)
    → occurs q (filter_by f xs) ≡ (if f q then occurs q xs else 0)
occurs-filter_by f q [] = ground arith
occurs-filter_by f q (x ∷ xs) = ground (arith, occurs-filter_by f q xs)

pub occurs-take : (k q : ℕ) (xs : List ℕ) → occurs q (take k xs) ≤ occurs q xs
occurs-take zero q xs = omega arith
occurs-take (suc k) q [] = omega arith
occurs-take (suc k) q (x ∷ xs) = omega (arith, occurs-take k q xs)
