-- ===== src/Node/Interface.antt =====
-- internal/node/node.go, `Store`: the operations that the interface names, what a store promises, and that a node is
-- one.
use chaos_kvs.Base.{
  ℕ, ◌≡◌, refl, true, Option, none, some, List, [], ◌∷◌, String, String_eq, ◌==◌, length, map,
  length-map, if◌then◌else◌, arith,
}
use chaos_kvs.Base.Map.{is_some, lookup, delete, lookup-insert, lookup-delete, Distinct}
use chaos_kvs.Base.Count.{count_if}
use chaos_kvs.Node.{
  Node, NodeError, Bytes, at_once, get, get_locked, set, set_locked, delete_key, keys, size,
  apply_delay,
}
use chaos_kvs.Node.Lifecycle.{IsValid, step-IsValid, sets, deletes, step}

pub record Store (S : Type 0) : Type 0 where
  pub get : String → S → S × Option Bytes
  pub set : String → Bytes → S → S × Option NodeError
  pub delete : String → S → S × Option NodeError
  pub keys : S → List String
  pub size : S → ℕ

-- How often a key is listed.
abbrev pub listed : String → List String → ℕ
listed key = count_if (λ k. k == key)

-- A read changes nothing. A write or a deletion that is refused changes nothing; one that is accepted changes what is
-- read under its key, and nothing else. A key under which something is read is listed once, a deleted one is not,
-- and the size is the number of keys.
pub record IsStore {S : Type 0} (store : Store S) (Fits : S → Type 0) : Type 0 where
  pub get_keeps : (k : String) (s : S) → (store.get k s).0 ≡ s
  pub set_refused :
      (k : String) (v : Bytes) (s : S) {e : NodeError}
      → (store.set k v s).1 ≡ some e
      → (store.set k v s).0 ≡ s
  pub set_accepted :
      (k j : String) (v : Bytes) (s : S)
      → (store.set k v s).1 ≡ none
      → (store.get j (store.set k v s).0).1 ≡ (if k == j then some v else (store.get j s).1)
  pub set_fits : (k : String) (v : Bytes) (s : S) → Fits s → Fits (store.set k v s).0
  pub delete_refused :
      (k : String) (s : S) {e : NodeError}
      → (store.delete k s).1 ≡ some e
      → (store.delete k s).0 ≡ s
  pub delete_accepted :
      (k j : String) (s : S)
      → (store.delete k s).1 ≡ none
      → (store.get j (store.delete k s).0).1 ≡ (if k == j then none else (store.get j s).1)
  pub delete_fits : (k : String) (s : S) → Fits s → Fits (store.delete k s).0
  pub read_listed :
      (k : String) (s : S) → Fits s → is_some (store.get k s).1 ≡ true → listed k (store.keys s) ≡ 1
  pub deleted_unlisted :
      (k : String) (s : S)
      → (store.delete k s).1 ≡ none
      → listed k (store.keys (store.delete k s).0) ≡ 0
  pub size_keys : (s : S) → store.size s ≡ length (store.keys s)

-- No other goroutine uses the node during a sleep.
abbrev pub node_store : Store Node
unfolding get set delete_key keys size
node_store = record {
  get = get at_once;
  set = set at_once;
  delete = delete_key;
  keys = keys;
  size = size;
}

listed-absent :
    (k : String) (m : List (String × Bytes)) → lookup k m ≡ none → listed k (map (λ e. e.0) m) ≡ 0
unfolding lookup
listed-absent k [] h = refl
listed-absent k ((j, v) ∷ m) h = ground (arith, listed-absent k m)

listed-found :
    (k : String) (m : List (String × Bytes))
    → Distinct m
    → is_some (lookup k m) ≡ true
    → listed k (map (λ e. e.0) m) ≡ 1
unfolding lookup
listed-found k [] d h = ground (arith, h)
listed-found k ((j, v) ∷ m) d h =
    ground (arith, h, listed-found k m d.1, listed-absent k m, String_eq.beq_iff j k)

listed-delete :
    (k : String) (m : List (String × Bytes)) → listed k (map (λ e. e.0) (delete k m)) ≡ 0
unfolding delete
listed-delete k [] = refl
listed-delete k ((j, v) ∷ m) = ground (arith, listed-delete k m)

-- A node, between calls and with no other goroutine in the way, is a store.
pub node_store-IsStore : IsStore node_store IsValid
unfolding node_store get get_locked set set_locked delete_key keys size apply_delay
node_store-IsStore = record {
  get_keeps = λ k s. refl;
  set_refused = λ k v s e. ground arith;
  set_accepted = λ k j v s h. ground (arith, lookup-insert k j v s.contents);
  set_fits = λ k v s f. unfold step in step-IsValid (sets k v) s f;
  delete_refused = λ k s e. ground arith;
  delete_accepted = λ k j s h. ground (arith, lookup-delete k j s.contents);
  delete_fits = λ k s f. unfold step in step-IsValid (deletes k) s f;
  read_listed = λ k s f h. ground (arith, h, listed-found k s.contents f.one_entry);
  deleted_unlisted = λ k s h. ground (arith, h, listed-delete k s.contents);
  size_keys = λ s. ground (arith, length-map (λ e. e.0) s.contents);
}
