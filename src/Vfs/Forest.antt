-- ===== src/Vfs/Forest.antt =====
-- kernel/src/fs/vfs.rs: what holds of the pointers, and what linking and unlinking do to it.
use anss_os.Common.{
  Bool, Bytes, List, Option, [], arith, false, if◌then◌else◌, length, none, refl, some, true, ℕ,
  ◌<◌, ◌==◌, ◌∷◌, ◌≡◌, ◌≢◌, ◌≤◌, ◌⊎◌,
}
use anss_os.Vfs.Store.{
  Store, Vnode, node, or_blank, is_dir, update, put_node, name_max, link_child, unlink_child, has,
  without,
}

abbrev pub parent_of : Store → ℕ → Option ℕ
parent_of s n = (node s n).parent

abbrev pub children_of : Store → ℕ → List ℕ
children_of s n = (node s n).children

abbrev pub name_of : Store → ℕ → Bytes
name_of s n = (node s n).name

abbrev pub is_live : Option Vnode → Bool
is_live none = false
is_live (some v) = true

abbrev pub points_to : Option ℕ → ℕ → Bool
points_to none p = false
points_to (some q) p = q == p

abbrev pub NoRepeat : List ℕ → Type 0
NoRepeat [] = Unit
NoRepeat (x ∷ xs) = (has x xs ≡ false) × NoRepeat xs

-- The parents of a node lead to the root, or to the node `loose` that hangs nowhere.
pub data Climbs (s : Store) (loose : Option ℕ) : ℕ → Type 0 where
  top : (n : ℕ) → n ≡ s.root → Climbs s loose n
  off : (n : ℕ) → loose ≡ some n → Climbs s loose n
  up : (n p : ℕ) → parent_of s n ≡ some p → Climbs s loose p → Climbs s loose n

-- Parents and children agree, no child is listed twice, and only directories have children; nothing
-- but the root and `loose` is without a parent; no two children of a directory have one name, and no
-- name is longer than 63 bytes; there are no loops; and the pointers from `next` on are unused.
pub record Forest (s : Store) (loose : Option ℕ) : Type 0 where
  pub links : (c p : ℕ) → has c (children_of s p) ≡ points_to (parent_of s c) p
  pub once : (p : ℕ) → NoRepeat (children_of s p)
  pub in_dirs : (c p : ℕ) → parent_of s c ≡ some p → is_dir s p ≡ true
  pub tops :
      (n : ℕ) → is_live (s.nodes n) ≡ true → parent_of s n ≡ none → (n ≡ s.root) ⊎ (loose ≡ some n)
  pub names :
      (a b p : ℕ)
      → parent_of s a ≡ some p
      → parent_of s b ≡ some p
      → name_of s a ≡ name_of s b
      → a ≡ b
  pub short : (n : ℕ) → length (name_of s n) < name_max
  pub climbs : (n : ℕ) → is_live (s.nodes n) ≡ true → Climbs s loose n
  pub root_dir : is_dir s s.root ≡ true
  pub root_top : parent_of s s.root ≡ none
  pub unused : (n : ℕ) → s.next ≤ n → s.nodes n ≡ none

abbrev pub IsTree : Store → Type 0
IsTree s = Forest s none

pub node-put_node :
    (s : Store) (n m : ℕ) (v : Option Vnode)
    → node (put_node s n v) m ≡ (if m == n then or_blank v else node s m)
unfolding node put_node
node-put_node s n m v = ground arith

pub nodes-put_node :
    (s : Store) (n m : ℕ) (v : Option Vnode)
    → (put_node s n v).nodes m ≡ (if m == n then v else s.nodes m)
unfolding put_node
nodes-put_node s n m v = refl

pub node-link_child :
    (s : Store) (p c m : ℕ)
    → p ≢ c
    → node (link_child s p c) m ≡ (
        if m == p
        then record (node s p) { children = c ∷ children_of s p }
        else if m == c
        then record (node s c) { parent = some p }
        else node s m)
unfolding link_child
node-link_child s p c m ne = ground (
  arith,
  node-put_node s c p (some (record (node s c) { parent = some p })),
  node-put_node s c m (some (record (node s c) { parent = some p })),
  node-put_node (update s c (record (node s c) { parent = some p })) p m (
      some (record (node (update s c (record (node s c) { parent = some p })) p) {
        children = c ∷ (node (update s c (record (node s c) { parent = some p })) p).children;
      })),
)

pub node-unlink_child :
    (s : Store) (p c m : ℕ)
    → p ≢ c
    → has c (children_of s p) ≡ true
    → node (unlink_child s p c) m ≡ (
        if m == p
        then record (node s p) { children = without c (children_of s p) }
        else if m == c
        then record (node s c) { parent = none }
        else node s m)
unfolding unlink_child
node-unlink_child s p c m ne h = rw h (
    let s1 = update s p (record (node s p) { children = without c (node s p).children }) in
    ground (
      arith,
      node-put_node s p c (some (record (node s p) { children = without c (node s p).children })),
      node-put_node s p m (some (record (node s p) { children = without c (node s p).children })),
      node-put_node s1 c m (some (record (node s1 c) { parent = none })),
    ))
