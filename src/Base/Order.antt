-- ===== src/Base/Order.antt =====
-- Choices that the program leaves to its runtime: the order in which `range` visits a map, the order
-- in which goroutines reach a lock, and what `rand.Shuffle` makes of a slice.
use Prim.Native.Nat.{ℕ}
use mathlib.Core.List.{List, reverse, Perm, reverse_perm}
use mathlib.Core.List.Perm

pub record OrderOf (A : Type 0) : Type 0 where
  pub apply : List A → List A
  pub apply-perm : (xs : List A) → Perm (apply xs) xs

abbrev pub Order : Type 0
Order = OrderOf ℕ

abbrev pub in_order : {A : Type 0} → OrderOf A
in_order = record { apply = λ xs. xs; apply-perm = λ xs. Perm.rfl }

abbrev pub backwards : {A : Type 0} → OrderOf A
backwards = record { apply = reverse; apply-perm = λ xs. reverse_perm xs }
