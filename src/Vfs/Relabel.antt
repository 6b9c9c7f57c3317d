-- ===== src/Vfs/Relabel.antt =====
-- kernel/src/fs/vfs.rs: nodes whose name or content changes, and new ones.
use anss_os.Common.{
  Bytes, Option, [], ap, arith, false, floor_char_boundary, floor_from, if◌then◌else◌,
  is_char_boundary, length, length-take, min, none, refl, some, suc, sym, take, true, zero, ℕ, ◌+◌,
  ◌<◌, ◌==◌, ◌∙◌, ◌∷◌, ◌≡◌, ◌≢◌, ◌≤◌, ◌⊎◌,
}
use anss_os.Vfs.Store.{
  Store, Vnode, VnodeType, node, is_dir, update, put_node, alloc_vnode, cut, name_max,
}
use anss_os.Vfs.Forest.{
  parent_of, children_of, name_of, is_live, Climbs, top, off, up, Forest, IsTree, node-put_node,
}
use native.Mathlib.Decide.{ℕ_discrete}

floor-le : (s : Bytes) (n : ℕ) → floor_from s n ≤ n
unfolding floor_from
floor-le s zero = omega arith
floor-le s (suc n) = ground (arith, floor-le s n)

pub length-cut : (name : Bytes) → length (cut name) < name_max
unfolding cut floor_char_boundary
length-cut name = omega (
  arith,
  length-take (floor_from name (min 63 (length name))) name,
  floor-le name (min 63 (length name)),
)

floor_whole : (s : Bytes) (n : ℕ) → n ≡ length s → floor_from s n ≡ n
unfolding floor_from is_char_boundary
floor_whole s zero e = refl
floor_whole s (suc n) e = ground arith

take_whole : (s : Bytes) (n : ℕ) → n ≡ length s → take n s ≡ s
take_whole [] zero e = refl
take_whole [] (suc n) e = absurd (omega arith)
take_whole (x ∷ xs) zero e = absurd (omega arith)
take_whole (x ∷ xs) (suc n) e = ap (λ r. x ∷ r) (take_whole xs n (omega arith))

-- A short name is not cut.
pub cut_short : (name : Bytes) → length name < name_max → cut name ≡ name
unfolding cut floor_char_boundary
cut_short name h =
    let all : min 63 (length name) ≡ length name = omega arith in
    rw all (rw (floor_whole name (length name) refl) (take_whole name (length name) refl))

module _ (s : Store) (loose : Option ℕ) (n : ℕ) (v : Vnode) (f : Forest s loose)
    (live : is_live (s.nodes n) ≡ true) (kind : v.kind ≡ (node s n).kind)
    (parent : v.parent ≡ parent_of s n) (children : v.children ≡ children_of s n)
    (name : (v.name ≡ name_of s n) ⊎ (parent_of s n ≡ none)) (few : length v.name < name_max) where
  relabel-live : (m : ℕ) → is_live ((update s n v).nodes m) ≡ is_live (s.nodes m)
  unfolding put_node
  relabel-live m = ground (arith, live)

  relabel-unused : (m : ℕ) → s.next ≤ m → (update s n v).nodes m ≡ none
  unfolding put_node
  relabel-unused m h = ground (arith, f.unused m, live)

  relabel-shape : ((update s n v).root ≡ s.root) × ((update s n v).next ≡ s.next)
  unfolding put_node
  relabel-shape = (refl, refl)

  relabel-kept :
      (m : ℕ)
      → ((node (update s n v) m).kind ≡ (node s m).kind)
        × (parent_of (update s n v) m ≡ parent_of s m)
        × (children_of (update s n v) m ≡ children_of s m)
        × ((name_of (update s n v) m ≡ name_of s m) ⊎ (parent_of s m ≡ none))
  relabel-kept m = ground (arith, node-put_node s n m (some v), kind, parent, children, name)

  relabel-climbs : (m : ℕ) → Climbs s loose m → Climbs (update s n v) loose m
  relabel-climbs m (top _ e) = top m (e ∙ sym relabel-shape.0)
  relabel-climbs m (off _ e) = off m e
  relabel-climbs m (up _ q e k) = up m q (ground (arith, relabel-kept m)) (relabel-climbs q k)

  pub relabel-Forest : Forest (update s n v) loose
  relabel-Forest = record {
    links = λ x y. ground (arith, relabel-kept x, relabel-kept y, f.links x y);
    once = λ y. ground (arith, relabel-kept y, f.once y);
    in_dirs = λ x y h. ground (arith, relabel-kept x, relabel-kept y, f.in_dirs x y);
    tops = λ m l h. ground (arith, relabel-kept m, f.tops m, relabel-live m, relabel-shape);
    names = λ a b q ha hb e. ground (arith, relabel-kept a, relabel-kept b, f.names a b q);
    short = λ m. ground (arith, node-put_node s n m (some v), f.short m, few);
    climbs = λ m l. relabel-climbs m (f.climbs m (ground (arith, relabel-live m)));
    root_dir = ground (arith, relabel-kept s.root, f.root_dir, relabel-shape);
    root_top = ground (arith, relabel-kept s.root, f.root_top, relabel-shape);
    unused = λ m h. relabel-unused m (omega (arith, relabel-shape.1));
  }

module _ (s : Store) (name : Bytes) (kind : VnodeType) (t : IsTree s) where
  pub alloc-node :
      (m : ℕ)
      → node (alloc_vnode s name kind).0 m ≡ (
          if m == s.next
          then record { name = cut name; kind = kind; parent = none; children = []; content = [] }
          else node s m)
  unfolding alloc_vnode node put_node
  alloc-node m = ground arith

  alloc-shape :
      ((alloc_vnode s name kind).0.root ≡ s.root)
      × ((alloc_vnode s name kind).0.next ≡ s.next + 1)
      × ((alloc_vnode s name kind).1 ≡ s.next)
  unfolding alloc_vnode put_node
  alloc-shape = (refl, refl, refl)

  alloc-live :
      (m : ℕ)
      → is_live ((alloc_vnode s name kind).0.nodes m)
        ≡ (if m == s.next then true else is_live (s.nodes m))
  unfolding alloc_vnode put_node
  alloc-live m = ground arith

  alloc-unused : (m : ℕ) → s.next + 1 ≤ m → (alloc_vnode s name kind).0.nodes m ≡ none
  unfolding alloc_vnode put_node
  alloc-unused m h = ground (arith, t.unused m)

  pub next_blank :
      (parent_of s s.next ≡ none) × (children_of s s.next ≡ []) × (is_dir s s.next ≡ false)
  unfolding node
  next_blank = ground (arith, t.unused s.next)

  alloc-climbs : (m : ℕ) → Climbs s none m → Climbs (alloc_vnode s name kind).0 (some s.next) m
  alloc-climbs m (top _ e) = top m (e ∙ sym alloc-shape.0)
  alloc-climbs m (off _ e) = absurd (ground arith)
  alloc-climbs m (up _ q e k) = up m q (ground (arith, alloc-node m, next_blank)) (alloc-climbs q k)

  root_old : s.root ≢ s.next
  root_old e = ground (arith, next_blank, t.root_dir)

  pub alloc-Forest : Forest (alloc_vnode s name kind).0 (some s.next)
  alloc-Forest = record {
    links = λ x y. ground (arith, alloc-node x, alloc-node y, t.links x y, next_blank);
    once = λ y. ground (arith, alloc-node y, t.once y);
    in_dirs = λ x y h. ground (arith, alloc-node x, alloc-node y, t.in_dirs x y, next_blank);
    tops = λ m l h. ground (arith, alloc-node m, t.tops m, alloc-live m, alloc-shape);
    names = λ a b q ha hb e. ground (arith, alloc-node a, alloc-node b, t.names a b q);
    short = λ m. ground (arith, alloc-node m, t.short m, length-cut name);
    climbs = λ m l. elim (ℕ_discrete m s.next) [
      | yes new ↦ off m (ap some (sym new))
      | no old ↦ alloc-climbs m (t.climbs m (ground (arith, alloc-live m)))
    ];
    root_dir = ground (arith, alloc-node s.root, t.root_dir, alloc-shape, root_old);
    root_top = ground (arith, alloc-node s.root, t.root_top, alloc-shape, root_old);
    unused = λ m h. alloc-unused m (omega (arith, alloc-shape.1));
  }
