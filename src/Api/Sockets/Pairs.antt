-- ===== src/Api/Sockets/Pairs.antt =====
-- Connections with their channels, as a list of pairs: what is found, and what a deletion leaves.
use chaos_kvs.Base.{
  ℕ, ◌+◌, ◌≤◌, ◌≡◌, refl, true, some, List, [], ◌∷◌, map, nat_eq, length, if◌then◌else◌, arith, ltb,
  ℕ_eq,
}
use chaos_kvs.Base.Map.{lookup, delete, is_some}
use chaos_kvs.Base.Count.{occurs, has}
use chaos_kvs.Events.Bus.{remove}

-- The connections of the sessions, and their channels.
abbrev pub conns : List (ℕ × ℕ) → List ℕ
conns s = map (λ e. e.0) s

abbrev pub chans : List (ℕ × ℕ) → List ℕ
chans s = map (λ e. e.1) s

pub length-remove : (p : ℕ) (ps : List ℕ) → length (remove p ps) + occurs p ps ≡ length ps
length-remove p [] = refl
length-remove p (q ∷ ps) = ground (arith, length-remove p ps)

pub lookup-occurs :
    (ws : ℕ) (s : List (ℕ × ℕ)) → is_some (lookup ws s) ≡ ltb 0 (occurs ws (conns s))
unfolding lookup
lookup-occurs ws [] = refl
lookup-occurs ws ((v, ch) ∷ s) = ground (arith, lookup-occurs ws s)

pub found-channel : (ws ch : ℕ) (s : List (ℕ × ℕ)) → lookup ws s ≡ some ch → has ch (chans s) ≡ true
unfolding lookup
found-channel ws ch [] e = ground (arith, e)
found-channel ws ch ((v, c) ∷ s) e = ground (arith, found-channel ws ch s)

pub conns-delete :
    (ws v : ℕ) (s : List (ℕ × ℕ))
    → occurs v (conns (delete ws s)) ≡ (if nat_eq ws v then 0 else occurs v (conns s))
unfolding delete
conns-delete ws v [] = ground arith
conns-delete ws v ((u, c) ∷ s) = ground (arith, conns-delete ws v s)

pub delete_none :
    (ws q : ℕ) (s : List (ℕ × ℕ))
    → occurs ws (conns s) ≡ 0
    → (occurs q (chans (delete ws s)) ≡ occurs q (chans s)) × (length (delete ws s) ≡ length s)
unfolding delete
delete_none ws q [] h = (refl, refl)
delete_none ws q ((u, c) ∷ s) h = ground (arith, delete_none ws q s)

pub chans-delete :
    (ws ch q : ℕ) (s : List (ℕ × ℕ))
    → occurs ws (conns s) ≤ 1
    → lookup ws s ≡ some ch
    → (occurs q (chans (delete ws s)) + (if nat_eq q ch then 1 else 0) ≡ occurs q (chans s))
      × (length (delete ws s) + 1 ≡ length s)
unfolding delete lookup
chans-delete ws ch q [] h e = ground (arith, e)
chans-delete ws ch q ((u, c) ∷ s) h e = ground (arith, chans-delete ws ch q s, delete_none ws q s)
