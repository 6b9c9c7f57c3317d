-- ===== src/Vfs/Create.antt =====
-- kernel/src/fs/vfs.rs: creating files and directories.
use anss_os.Common.{
  Allows, Allows-Unit, Allows-bind, Bool-cases, Bytes, List, Option, [], ap, arith, bytes_eq, drop,
  if◌then◌else◌, inl, inr, is_empty, length, none, not, refl, rfind, some, suc, sym, take, trim_end,
  true, zero, ℕ, ◌+◌, ◌<◌, ◌==◌, ◌||◌, ◌∙◌, ◌∷◌, ◌≡◌, ◌≢◌,
}
use anss_os.Vfs.Store.{
  Store, VnodeType, node, is_dir, alloc_vnode, put_node, link_child, has, cut, name_max,
}
use anss_os.Vfs.Paths.{find_among, find_child, resolve_parent_and_leaf, split_leaf, resolve}
use anss_os.Vfs.Ops.{is_some, create_at, create_leaf}
use anss_os.Vfs.Forest.{
  parent_of, children_of, name_of, is_live, Climbs, top, off, up, IsTree, node-link_child,
}
use anss_os.Vfs.Linking.{dir-is_live, link-IsTree}
use anss_os.Vfs.Relabel.{alloc-Forest, alloc-node, next_blank, cut_short, length-cut}

bytes_eq_refl : (b : Bytes) → bytes_eq b b ≡ true
unfolding bytes_eq
bytes_eq_refl [] = refl
bytes_eq_refl (x ∷ xs) = ground (arith, bytes_eq_refl xs)

-- A search that finds nothing has seen every child's name.
pub find_among-none :
    (s : Store) (name : Bytes) (xs : List ℕ) (a : ℕ)
    → find_among s name xs ≡ none
    → has a xs ≡ true
    → name_of s a ≢ name
unfolding find_among
find_among-none s name [] a f h e = cc
find_among-none s name (x ∷ xs) a f h e =
    ground (arith, find_among-none s name xs a, bytes_eq_refl name)

-- The chain above a node stays where only a node off the chain changes its parent.
pub climbs_carry :
    (s s' : Store) (c : ℕ)
    → ((y : ℕ) → y ≢ c → parent_of s' y ≡ parent_of s y)
    → s'.root ≡ s.root
    → ((y : ℕ) → parent_of s y ≢ some c)
    → (n : ℕ) → n ≢ c
    → Climbs s none n
    → Climbs s' none n
climbs_carry s s' c keep r avoid n ne (top _ e) = top n (e ∙ sym r)
climbs_carry s s' c keep r avoid n ne (off _ e) = absurd (ground arith)
climbs_carry s s' c keep r avoid n ne (up _ q e k) =
    up n q (keep n ne ∙ e)
      (climbs_carry s s' c keep r avoid q (λ same. avoid n (e ∙ ap some same)) k)

module _ (s : Store) (kind : VnodeType) (p : ℕ) (leaf : Bytes) (t : IsTree s)
    (short : length leaf < name_max) (in_dir : is_dir s p ≡ true)
    (absent : find_child s p leaf ≡ none) where
  abbrev fresh_store : Store
  fresh_store = (alloc_vnode s leaf kind).0

  abbrev made : Store
  made = link_child fresh_store p s.next

  old : p ≢ s.next
  old e = ground (arith, next_blank s leaf kind t)

  made-node :
      (m : ℕ)
      → node made m ≡ (
          if m == p
          then record (node fresh_store p) { children = s.next ∷ children_of fresh_store p }
          else if m == s.next
          then record (node fresh_store s.next) { parent = some p }
          else node fresh_store m)
  made-node m = node-link_child fresh_store p s.next m old

  made-root : made.root ≡ s.root
  unfolding link_child put_node alloc_vnode
  made-root = refl

  fresh-live : is_live (fresh_store.nodes s.next) ≡ true
  unfolding alloc_vnode put_node
  fresh-live = ground arith

  fresh-not_root : s.next ≢ fresh_store.root
  unfolding alloc_vnode put_node
  fresh-not_root e = ground (arith, next_blank s leaf kind t, t.root_dir)

  new_name :
      (a : ℕ)
      → parent_of fresh_store a ≡ some p
      → name_of fresh_store a ≢ name_of fresh_store s.next
  unfolding find_child
  new_name a h e =
      find_among-none s leaf (children_of s p) a absent
        (ground (arith, alloc-node s leaf kind t a, t.links a p))
        (ground
          (arith, alloc-node s leaf kind t a, alloc-node s leaf kind t s.next, cut_short leaf))

  pub made-IsTree : IsTree made
  made-IsTree =
      link-IsTree fresh_store p s.next (alloc-Forest s leaf kind t)
        (ground (arith, alloc-node s leaf kind t s.next)) fresh-live fresh-not_root
        (ground (arith, alloc-node s leaf kind t p, old)) old new_name
        (climbs_carry s made s.next
          (λ y ne.
            ground (arith, made-node y, alloc-node s leaf kind t y, alloc-node s leaf kind t p))
          made-root (λ y e. ground (arith, t.in_dirs y s.next, next_blank s leaf kind t)) p old
          (t.climbs p (dir-is_live s p in_dir)))

  -- The directory has the new node under its name.
  pub made-find_child :
      (find_child made p leaf ≡ some s.next)
      × ((node made s.next).kind ≡ kind)
      × (parent_of made s.next ≡ some p)
      × (children_of made s.next ≡ [])
  unfolding find_child find_among
  made-find_child = ground (
    arith,
    made-node p,
    made-node s.next,
    old,
    alloc-node s leaf kind t s.next,
    cut_short leaf,
    bytes_eq_refl leaf,
  )

-- What `resolve_parent_and_leaf` gives is short enough to be a name.
abbrev pub ShortLeaf : Option (ℕ × Bytes) → Type 0
ShortLeaf = Allows (λ t. length t.1 < name_max)

pub split_leaf-ShortLeaf :
    (s : Store) (base : ℕ) (path : Bytes) (i : Option ℕ) → ShortLeaf (split_leaf s base path i)
unfolding split_leaf
split_leaf-ShortLeaf s base path none = length-cut path
split_leaf-ShortLeaf s base path (some zero) = length-cut (drop 1 path)
split_leaf-ShortLeaf s base path (some (suc i)) =
    Allows-bind (λ n. Unit {0}) (λ t. length t.1 < name_max) (resolve s base (take (suc i) path))
      (λ parent. some (parent, cut (drop (i + 2) path)))
      (Allows-Unit (resolve s base (take (suc i) path))) (λ n u. length-cut (drop (i + 2) path))

pub leaf-ShortLeaf :
    (s : Store) (base : ℕ) (path : Bytes) → ShortLeaf (resolve_parent_and_leaf s base path)
unfolding resolve_parent_and_leaf
leaf-ShortLeaf s base path =
    ground
      (arith, split_leaf-ShortLeaf s base (trim_end b'/' path) (rfind b'/' (trim_end b'/' path)))

create_at-IsTree :
    (s : Store) (kind : VnodeType) (target : Option (ℕ × Bytes))
    → IsTree s
    → ShortLeaf target
    → IsTree (create_at s kind target).0
unfolding create_at alloc_vnode
create_at-IsTree s kind none t h = t
create_at-IsTree s kind (some (p, leaf)) t h =
    elim (Bool-cases (not (is_dir s p) || is_empty leaf || is_some (find_child s p leaf))) [
      | inl refused ↦ rw refused t
      | inr fine ↦ rw fine (made-IsTree s kind p leaf t h (ground arith) (ground arith))
    ]

pub create_leaf-IsTree :
    (s : Store) (base : ℕ) (path : Bytes) (kind : VnodeType)
    → IsTree s
    → IsTree (create_leaf s base path kind).0
unfolding create_leaf
create_leaf-IsTree s base path kind t =
    create_at-IsTree s kind (resolve_parent_and_leaf s base path) t (leaf-ShortLeaf s base path)
