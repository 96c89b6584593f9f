-- ===== src/Heap.antt =====
-- The nodes, which the cluster, the clients, the monkey and the recovery manager share by pointer.
-- A pointer is a number, and a Go pointer to a node never dangles: a read is total.
use chaos_kvs.Base.{
  ℕ, suc, ◌+◌, ◌≡◌, refl, Bool, Option, List, [], ◌∷◌, arith, nat_eq, if◌then◌else◌,
}
use chaos_kvs.Base.Map.{is_some}
use chaos_kvs.Base.Count.{has, Once, count_if, count_if-cong}
use chaos_kvs.Node.{Node, NodeError}

pub record Heap : Type 0 where
  pub cell : ℕ → Node
  pub next : ℕ

abbrev pub write : ℕ → Node → Heap → Heap
write p n h = record h { cell = λ q. if nat_eq p q then n else h.cell q }

-- `&Node{…}`
abbrev pub alloc : Node → Heap → Heap × ℕ
alloc n h = (record (write h.next n h) { next = suc h.next }, h.next)

-- A method called through a pointer.
abbrev pub Method : Type 0
Method = Node → Node × Option NodeError

abbrev pub call : Method → ℕ → Heap → Heap × Option NodeError
call f p h = (write p (f (h.cell p)).0 h, (f (h.cell p)).1)

-- The loop over goroutines that each make one call, in the order in which they reach it; the number
-- counts the calls that were refused.
unfoldable pub each : Method → List ℕ → Heap → Heap × ℕ
each f [] h = (h, 0)
each f (p ∷ ps) h =
    let (h', e) = call f p h in
    let (h'', failed) = each f ps h' in (h'', (if is_some e then 1 else 0) + failed)

module _ (f : Method) (again : (n : Node) → (f (f n).0).0 ≡ (f n).0) where
  -- A call that a second call of the same method does not change leaves each pointer's node as one
  -- call would.
  pub cell-each :
      (ps : List ℕ) (h : Heap) (q : ℕ)
      → (each f ps h).0.cell q ≡ (if has q ps then (f (h.cell q)).0 else h.cell q)
  unfolding each
  cell-each [] h q = refl
  cell-each (p ∷ ps) h q = ground (arith, again (h.cell q), cell-each ps (call f p h).0 q)

  pub next-each : (ps : List ℕ) (h : Heap) → (each f ps h).0.next ≡ h.next
  unfolding each
  next-each [] h = refl
  next-each (p ∷ ps) h = next-each ps (call f p h).0

abbrev pub refuses : Method → Heap → ℕ → Bool
refuses f h p = is_some (f (h.cell p)).1

-- Over distinct pointers the failures are those of the nodes as they were.
pub failed-each :
    (f : Method) (ps : List ℕ) (h : Heap) → Once ps → (each f ps h).1 ≡ count_if (refuses f h) ps
unfolding each
failed-each f [] h o = refl
failed-each f (p ∷ ps) h o = ground (
  arith,
  failed-each f ps (call f p h).0 (λ q. ground (arith, o q)),
  count_if-cong (refuses f (call f p h).0) (refuses f h) ps (λ q e. ground (arith, o p)),
)
