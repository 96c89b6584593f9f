-- ===== src/Metrics/Percentile.antt =====
-- internal/metrics/metrics.go, GetP99Latency: what the value at the percentile's index says of the samples.
use chaos_kvs.Base.{
  ℕ, zero, suc, ◌≤◌, ◌<◌, ◌≡◌, refl, ap, Bool, true, false, List, [], ◌∷◌, ℤ, pos, negsuc, ltb_ℤ,
  leb_ℤ, nat_eq, length, get_or, All, if◌then◌else◌, arith, ◌∙◌, subst, sym,
}
use chaos_kvs.Base.Count.{count_if}
use chaos_kvs.Metrics.{Float, Metrics, insert_sorted, sort, rank, p99_latency}

leb_ℤ-refl : (x : ℤ) → leb_ℤ x x ≡ true
leb_ℤ-refl (pos n) = ground arith
leb_ℤ-refl (negsuc n) = ground arith

pub leb_ℤ-trans : (x y z : ℤ) → leb_ℤ x y ≡ true → leb_ℤ y z ≡ true → leb_ℤ x z ≡ true
leb_ℤ-trans (pos a) (pos b) (pos c) p q = ground arith
leb_ℤ-trans (pos a) (pos b) (negsuc c) p q = ground arith
leb_ℤ-trans (pos a) (negsuc b) z p q = ground arith
leb_ℤ-trans (negsuc a) (pos b) (pos c) p q = ground arith
leb_ℤ-trans (negsuc a) (pos b) (negsuc c) p q = ground arith
leb_ℤ-trans (negsuc a) (negsuc b) (pos c) p q = ground arith
leb_ℤ-trans (negsuc a) (negsuc b) (negsuc c) p q = ground arith

pub leb_ℤ-total : (x y : ℤ) → leb_ℤ x y ≡ false → leb_ℤ y x ≡ true
leb_ℤ-total (pos a) (pos b) p = ground arith
leb_ℤ-total (pos a) (negsuc b) p = ground arith
leb_ℤ-total (negsuc a) (pos b) p = ground arith
leb_ℤ-total (negsuc a) (negsuc b) p = ground arith

ltb_ℤ-leb : (x y : ℤ) → leb_ℤ x y ≡ true → ltb_ℤ y x ≡ false
ltb_ℤ-leb (pos a) (pos b) p = ground arith
ltb_ℤ-leb (pos a) (negsuc b) p = ground arith
ltb_ℤ-leb (negsuc a) (pos b) p = ground arith
ltb_ℤ-leb (negsuc a) (negsuc b) p = ground arith

-- What each branch has under its condition holds of the conditional.
if_given :
    {A : Type 0} (P : A → Type 0) (b : Bool) {x y : A}
    → (b ≡ true → P x)
    → (b ≡ false → P y)
    → P (if b then x else y)
if_given P true p q = p refl
if_given P false p q = q refl

-- Every element is at most those after it.
abbrev pub Sorted : List ℤ → Type 0
Sorted [] = Unit
Sorted (x ∷ xs) = All (λ y. leb_ℤ x y ≡ true) xs × Sorted xs

All-insert_sorted :
    (b x : ℤ) (ys : List ℤ)
    → leb_ℤ b x ≡ true
    → All (λ y. leb_ℤ b y ≡ true) ys
    → All (λ y. leb_ℤ b y ≡ true) (insert_sorted x ys)
unfolding insert_sorted
All-insert_sorted b x [] p q = (p, tt)
All-insert_sorted b x (y ∷ ys) p q =
    if_given (λ zs. All (λ z. leb_ℤ b z ≡ true) zs) (leb_ℤ x y) (λ _. (p, q))
      (λ _. (q.0, All-insert_sorted b x ys p q.1))

All-trans :
    (x y : ℤ) (ys : List ℤ)
    → leb_ℤ x y ≡ true
    → All (λ z. leb_ℤ y z ≡ true) ys
    → All (λ z. leb_ℤ x z ≡ true) ys
All-trans x y [] p q = tt
All-trans x y (z ∷ ys) p q = (leb_ℤ-trans x y z p q.0, All-trans x y ys p q.1)

insert_sorted-Sorted : (x : ℤ) (ys : List ℤ) → Sorted ys → Sorted (insert_sorted x ys)
unfolding insert_sorted
insert_sorted-Sorted x [] h = (tt, tt)
insert_sorted-Sorted x (y ∷ ys) h =
    if_given Sorted (leb_ℤ x y) (λ e. ((e, All-trans x y ys e h.0), h))
      (λ e. (All-insert_sorted y x ys (leb_ℤ-total x y e) h.0, insert_sorted-Sorted x ys h.1))

sort-Sorted : (xs : List ℤ) → Sorted (sort xs)
unfolding sort
sort-Sorted [] = tt
sort-Sorted (x ∷ xs) = insert_sorted-Sorted x (sort xs) (sort-Sorted xs)

count_if-insert_sorted :
    (f : ℤ → Bool) (x : ℤ) (ys : List ℤ) → count_if f (insert_sorted x ys) ≡ count_if f (x ∷ ys)
unfolding insert_sorted
count_if-insert_sorted f x [] = refl
count_if-insert_sorted f x (y ∷ ys) = ground (arith, count_if-insert_sorted f x ys)

count_if-sort : (f : ℤ → Bool) (xs : List ℤ) → count_if f (sort xs) ≡ count_if f xs
unfolding sort
count_if-sort f [] = refl
count_if-sort f (x ∷ xs) = ground (arith, count_if-insert_sorted f x (sort xs), count_if-sort f xs)

length-insert_sorted : (x : ℤ) (ys : List ℤ) → length (insert_sorted x ys) ≡ suc (length ys)
unfolding insert_sorted
length-insert_sorted x [] = refl
length-insert_sorted x (y ∷ ys) = ground (arith, length-insert_sorted x ys)

pub length-sort : (xs : List ℤ) → length (sort xs) ≡ length xs
unfolding sort
length-sort [] = refl
length-sort (x ∷ xs) = ground (arith, length-insert_sorted x (sort xs), length-sort xs)

none_below :
    (v : ℤ) (ys : List ℤ) → All (λ y. leb_ℤ v y ≡ true) ys → count_if (λ y. ltb_ℤ y v) ys ≡ 0
none_below v [] h = refl
none_below v (y ∷ ys) h = ground (arith, ltb_ℤ-leb v y h.0, none_below v ys h.1)

All-get_or :
    (b d : ℤ) (ys : List ℤ) (k : ℕ)
    → k < length ys
    → All (λ y. leb_ℤ b y ≡ true) ys
    → leb_ℤ b (get_or ys k d) ≡ true
All-get_or b d [] k l h = ground arith
All-get_or b d (y ∷ ys) zero l h = h.0
All-get_or b d (y ∷ ys) (suc k) l h = All-get_or b d ys k (omega arith) h.1

-- In a sorted list, at most `k` elements are below the one at `k`, and more than `k` are at most it.
get_or-Sorted :
    (d : ℤ) (ys : List ℤ) (k : ℕ)
    → k < length ys
    → Sorted ys
    → (count_if (λ y. ltb_ℤ y (get_or ys k d)) ys ≤ k)
      × (k < count_if (λ y. leb_ℤ y (get_or ys k d)) ys)
get_or-Sorted d [] k l h = (ground arith, ground arith)
get_or-Sorted d (y ∷ ys) zero l h = (
  ground (arith, ltb_ℤ-leb y y (leb_ℤ-refl y), none_below y ys h.0),
  ground (arith, leb_ℤ-refl y),
)
get_or-Sorted d (y ∷ ys) (suc k) l h =
    let below = get_or-Sorted d ys k (omega arith) h.1 in
    (ground (arith, below.0), ground (arith, below.1, All-get_or y d ys k (omega arith) h.0))

counts-sort :
    (d : ℤ) (xs : List ℤ) (k : ℕ)
    → k < length xs
    → (count_if (λ x. ltb_ℤ x (get_or (sort xs) k d)) xs ≤ k)
      × (k < count_if (λ x. leb_ℤ x (get_or (sort xs) k d)) xs)
counts-sort d xs k l =
    let v = get_or (sort xs) k d in
    let counted = get_or-Sorted d (sort xs) k (omega (arith, length-sort xs)) (sort-Sorted xs) in
    (
      omega (arith, counted.0, count_if-sort (λ x. ltb_ℤ x v) xs),
      omega (arith, counted.1, count_if-sort (λ x. leb_ℤ x v) xs),
    )

rank-bound : (float : Float) (n : ℕ) → 0 < n → rank float n < n
rank-bound float n l = ground arith

some_samples : (xs : List ℤ) → 0 < length xs → nat_eq (length xs) 0 ≡ false
some_samples xs l = ground arith

p99_latency_value :
    (float : Float) (m : Metrics)
    → 0 < length m.latencies
    → p99_latency float m ≡ get_or (sort m.latencies) (rank float (length m.latencies)) (pos 0)
unfolding p99_latency
p99_latency_value float m l =
    ap
      (λ b.
        if b
        then pos 0
        else get_or (sort m.latencies) (rank float (length (sort m.latencies))) (pos 0))
      (some_samples m.latencies l)
    ∙ ap (λ n. get_or (sort m.latencies) (rank float n) (pos 0)) (length-sort m.latencies)

-- With at least one sample, the index of the percentile is that of a sample, at most as many samples as the index are
-- below the value reported, and more than the index are at most it.
pub p99_latency_lem :
    (float : Float) (m : Metrics)
    → 0 < length m.latencies
    → let v = p99_latency float m in
      (rank float (length m.latencies) < length m.latencies)
      × (count_if (λ x. ltb_ℤ x v) m.latencies ≤ rank float (length m.latencies))
      × (rank float (length m.latencies) < count_if (λ x. leb_ℤ x v) m.latencies)
p99_latency_lem float m l =
    let k = rank float (length m.latencies) in
    let counted =
      subst
        (λ v.
          (count_if (λ x. ltb_ℤ x v) m.latencies ≤ k) × (k < count_if (λ x. leb_ℤ x v) m.latencies))
        (sym (p99_latency_value float m l))
        (counts-sort (pos 0) m.latencies k (rank-bound float (length m.latencies) l)) in
    (rank-bound float (length m.latencies) l, counted.0, counted.1)
