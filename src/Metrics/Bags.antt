-- ===== src/Metrics/Bags.antt =====
-- internal/metrics/metrics.go: the samples as a bag. The percentile sorts them, and so forgets their order.
use chaos_kvs.Base.{
  ◌≡◌, refl, sym, ap, ◌∙◌, true, List, [], ◌∷◌, ℤ, pos, negsuc, leb_ℤ, nat_eq, length, get_or,
  if◌then◌else◌, arith, Perm,
}
use mathlib.Core.Logic.{∥∥₁_elim}
use mathlib.Core.List.{Permᴰ}
use mathlib.Core.Quot
use mathlib.Core.Quot.{Quot}
use native.Mathlib.Decide.{ℕ_discrete}
use mathlib.Core.HLevel.{hedberg}
use chaos_kvs.Metrics.Percentile.{length-sort, leb_ℤ-trans, leb_ℤ-total}
use chaos_kvs.Metrics.{Float, Metrics, insert_sorted, sort, rank, p99_latency}

ℤ-discrete : Discrete ℤ
ℤ-discrete = hlevel ℕ_discrete

pub ℤ-set : IsSet ℤ
ℤ-set = hedberg ℤ-discrete

leb_ℤ-antisym : (x y : ℤ) → leb_ℤ x y ≡ true → leb_ℤ y x ≡ true → x ≡ y
leb_ℤ-antisym (pos a) (pos b) p q = ground arith
leb_ℤ-antisym (pos a) (negsuc b) p q = ground arith
leb_ℤ-antisym (negsuc a) (pos b) p q = ground arith
leb_ℤ-antisym (negsuc a) (negsuc b) p q = ground arith

insert_sorted_comm :
    (x y : ℤ) (zs : List ℤ)
    → insert_sorted x (insert_sorted y zs) ≡ insert_sorted y (insert_sorted x zs)
unfolding insert_sorted
insert_sorted_comm x y [] = ground (arith, leb_ℤ-antisym x y, leb_ℤ-total x y)
insert_sorted_comm x y (z ∷ zs) = ground (
  arith,
  leb_ℤ-antisym x y,
  leb_ℤ-total x y,
  leb_ℤ-trans x y z,
  leb_ℤ-trans y x z,
  leb_ℤ-total z y,
  leb_ℤ-total z x,
  leb_ℤ-trans z x y,
  leb_ℤ-trans z y x,
  insert_sorted_comm x y zs,
)

sort-permᴰ : {xs ys : List ℤ} → Permᴰ xs ys → sort xs ≡ sort ys
unfolding sort
sort-permᴰ Permᴰ.nil = refl
sort-permᴰ (Permᴰ.cons {a = a} {l₂ = ys} e p) =
    ap (insert_sorted a) (sort-permᴰ p) ∙ ap (λ x. insert_sorted x (sort ys)) e
sort-permᴰ (Permᴰ.swap {a = a} {b = b} {a' = a'} {l = zs} e d) =
    insert_sorted_comm a b (sort zs)
    ∙ ap (λ x. insert_sorted x (insert_sorted a (sort zs))) d
    ∙ ap (λ x. insert_sorted a' (insert_sorted x (sort zs))) e
sort-permᴰ (Permᴰ.trans p q) = sort-permᴰ p ∙ sort-permᴰ q

durations-set : IsSet (List ℤ)
durations-set = hlevel ℤ-set

pub sort-perm : {xs ys : List ℤ} → Perm xs ys → sort xs ≡ sort ys
sort-perm p = ∥∥₁_elim p (durations-set _ _) sort-permᴰ

-- Samples, but for their order.
abbrev pub Bag : Type 0
Bag = Quot {α = List ℤ} Perm

abbrev pub bag : List ℤ → Bag
bag xs = Quot.mk xs

module _ (float : Float) where
  -- The percentile of samples that are in some order.
  percentile : List ℤ → ℤ
  percentile sorted =
      if nat_eq (length sorted) 0 then pos 0 else get_or sorted (rank float (length sorted)) (pos 0)

  -- The percentile of a bag.
  pub p99_of : Bag → ℤ
  p99_of = Quot.lift ℤ-set (λ xs. percentile (sort xs)) (λ xs ys p. ap percentile (sort-perm p))

  p99_of_lem : (m : Metrics) → p99_latency float m ≡ p99_of (bag m.latencies)
  unfolding p99_latency p99_of percentile
  p99_of_lem m =
      ap
        (λ n.
          if nat_eq n 0
          then pos 0
          else get_or (sort m.latencies) (rank float (length (sort m.latencies))) (pos 0))
        (sym (length-sort m.latencies))

  -- Samples in another order have the same percentile.
  pub p99_any_order :
      (m m' : Metrics) → Perm m.latencies m'.latencies → p99_latency float m ≡ p99_latency float m'
  p99_any_order m m' p = p99_of_lem m ∙ (ap p99_of (Quot.sound p) ∙ sym (p99_of_lem m'))
