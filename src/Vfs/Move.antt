-- ===== src/Vfs/Move.antt =====
-- kernel/src/fs/vfs.rs: moving a node.
use anss_os.Common.{
  Allows, Bool, Bool-cases, Bytes, Option, Option-cases, arith, false, if◌then◌else◌, inl, inr,
  is_empty, length, none, not, refl, some, subst, suc, true, zero, ℕ, ◌&&◌, ◌+◌, ◌<◌, ◌==◌, ◌>>=◌,
  ◌||◌, ◌≡◌, ◌≢◌, ◌⊎◌,
}
use anss_os.Vfs.Store.{
  Store, node, is_dir, put_node, set_name, link_child, unlink_child, climb, is_ancestor_or_self,
  cut, name_max,
}
use anss_os.Vfs.Paths.{find_child, resolve_parent_and_leaf, resolve}
use anss_os.Vfs.Ops.{is_false, other_than, unlink, move_to, move_at, move_node, resolve_target}
use anss_os.Vfs.Forest.{
  parent_of, children_of, name_of, is_live, Climbs, top, up, Forest, IsTree, node-link_child,
  node-put_node,
}
use anss_os.Vfs.Linking.{dir-is_live, child-is_live, link-IsTree}
use anss_os.Vfs.Loose.{unlink-Forest, unlink-loose, unlink-kept, unlink-live, unlink-shape}
use anss_os.Vfs.Relabel.{relabel-Forest, cut_short, length-cut}
use anss_os.Vfs.Create.{climbs_carry, find_among-none, ShortLeaf, leaf-ShortLeaf}
use anss_os.Vfs.Reached.{find_among-some, resolve-live}

-- A walk up that misses `c` runs along parents that stay.
climb-Climbs :
    (s s' : Store) (c rounds n : ℕ)
    → IsTree s
    → ((y : ℕ) → y ≢ c → parent_of s' y ≡ parent_of s y)
    → s'.root ≡ s.root
    → is_live (s.nodes n) ≡ true
    → climb rounds s c (some n) ≡ some false
    → Climbs s' none n
unfolding climb
climb-Climbs s s' c zero n t keep r l h = cc
climb-Climbs s s' c (suc rounds) n t keep r l h = elim (Option-cases (parent_of s n)) [
  | inl none_above ↦ top n (ground (arith, t.tops n, r))
  | inr (q, e) ↦ up n q (ground (arith, keep n)) (
      climb-Climbs s s' c rounds q t keep r (dir-is_live s q (t.in_dirs n q e)) (ground (arith, e)))
]

module _ (s : Store) (src p q : ℕ) (leaf : Bytes) (t : IsTree s) (parent : parent_of s src ≡ some q)
    (short : length leaf < name_max) (in_dir : is_dir s p ≡ true) (ne : p ≢ src) where
  abbrev cut_off : Store
  cut_off = unlink_child s q src

  abbrev renamed : Store
  renamed = set_name cut_off src leaf

  abbrev moved : Store
  moved = link_child renamed p src

  renamed-node :
      (m : ℕ)
      → node renamed m
        ≡ (if m == src then record (node cut_off src) { name = cut leaf } else node cut_off m)
  unfolding set_name
  renamed-node m =
      node-put_node cut_off src m (some (record (node cut_off src) { name = cut leaf }))

  renamed-Forest : Forest renamed (some src)
  unfolding set_name
  renamed-Forest =
      relabel-Forest cut_off (some src) src (record (node cut_off src) { name = cut leaf })
        (unlink-Forest s q src t parent)
        (ground (arith, unlink-live s q src t parent src, child-is_live s src q parent)) refl refl
        refl (inr (unlink-loose s q src t parent)) (length-cut leaf)

  renamed-live : is_live (renamed.nodes src) ≡ true
  unfolding set_name put_node
  renamed-live = ground arith

  renamed-root : renamed.root ≡ s.root
  unfolding set_name put_node
  renamed-root = (unlink-shape s q src t parent).0

  moved-root : moved.root ≡ s.root
  unfolding link_child set_name put_node
  moved-root = (unlink-shape s q src t parent).0

  moved-keeps : (y : ℕ) → y ≢ src → parent_of moved y ≡ parent_of s y
  moved-keeps y other = ground (
    arith,
    node-link_child renamed p src y ne,
    renamed-node y,
    renamed-node p,
    unlink-kept s q src t parent y,
    unlink-kept s q src t parent p,
  )

  pub moved-IsTree :
      ((a : ℕ) → parent_of s a ≡ some p → a ≢ src → name_of s a ≢ leaf)
      → Climbs moved none p
      → IsTree moved
  moved-IsTree new above =
      link-IsTree renamed p src renamed-Forest
        (ground (arith, renamed-node src, unlink-kept s q src t parent src)) renamed-live
        (λ e. ground (arith, renamed-root, t.root_top, parent))
        (ground (arith, renamed-node p, unlink-kept s q src t parent p)) ne
        (λ a h e. ground (
          arith,
          renamed-node a,
          renamed-node src,
          unlink-kept s q src t parent a,
          unlink-kept s q src t parent src,
          cut_short leaf,
          new a,
        ))
        above

-- The name is free in the directory, but for the node that moves.
name_free :
    (s : Store) (src p : ℕ) (leaf : Bytes) (found : Option ℕ)
    → IsTree s
    → find_child s p leaf ≡ found
    → other_than src found ≡ false
    → (a : ℕ) → parent_of s a ≡ some p
    → a ≢ src
    → name_of s a ≢ leaf
unfolding find_child
name_free s src p leaf none t f o a h ne =
    find_among-none s leaf (children_of s p) a f (ground (arith, t.links a p))
name_free s src p leaf (some b) t f o a h ne = λ e.
    let there = find_among-some s leaf (children_of s p) b f in
    ground (arith, t.links b p, t.names a b p, there)

climb_self : (rounds : ℕ) (s : Store) (c : ℕ) → climb rounds s c (some c) ≢ some false
unfolding climb
climb_self zero s c h = cc
climb_self (suc rounds) s c h = ground arith

-- The guards of `move_to`, for a directory and for a file.
guards :
    (s : Store) (src p : ℕ)
    → is_dir s p ≡ true
    → (is_dir s src ≡ false) ⊎ (climb (s.next + 1) s src (some p) ≡ some false)
    → p ≢ src
guards s src p d (inl file_moved) e = ground arith
guards s src p d (inr clear) e =
    climb_self (s.next + 1) s src
      (subst (λ n. climb (s.next + 1) s src (some n) ≡ some false) e clear)

above_target :
    (s : Store) (src p q : ℕ) (leaf : Bytes) (t : IsTree s) (parent : parent_of s src ≡ some q)
    → (short : length leaf < name_max) → (in_dir : is_dir s p ≡ true) → (ne : p ≢ src)
    → (is_dir s src ≡ false) ⊎ (climb (s.next + 1) s src (some p) ≡ some false)
    → Climbs (moved s src p q leaf t parent short in_dir ne) none p
above_target s src p q leaf t parent short d ne (inl file_moved) =
    climbs_carry s (moved s src p q leaf t parent short d ne) src
      (moved-keeps s src p q leaf t parent short d ne)
      (moved-root s src p q leaf t parent short d ne) (λ y e. ground (arith, t.in_dirs y src)) p ne
      (t.climbs p (dir-is_live s p d))
above_target s src p q leaf t parent short d ne (inr clear) =
    climb-Climbs s (moved s src p q leaf t parent short d ne) src (s.next + 1) p t
      (moved-keeps s src p q leaf t parent short d ne)
      (moved-root s src p q leaf t parent short d ne) (dir-is_live s p d) clear

is_false→eq : (o : Option Bool) → is_false o ≡ true → o ≡ some false
is_false→eq none h = cc
is_false→eq (some true) h = cc
is_false→eq (some false) h = refl

allowed_move :
    (s : Store) (src p : ℕ)
    → (is_dir s src && not (is_false (is_ancestor_or_self s src p))) ≡ false
    → (is_dir s src ≡ false) ⊎ (climb (s.next + 1) s src (some p) ≡ some false)
unfolding is_ancestor_or_self
allowed_move s src p h = elim (Bool-cases (is_dir s src)) [
  | inl directory ↦ inr (is_false→eq (climb (s.next + 1) s src (some p)) (ground arith))
  | inr plain ↦ inl plain
]

abbrev DirTarget : Store → Option (ℕ × Bytes) → Type 0
DirTarget s = Allows (λ t. (length t.1 < name_max) × (is_dir s t.0 ≡ true))

pub unlink_lem : (s : Store) (n q : ℕ) → parent_of s n ≡ some q → unlink s n ≡ unlink_child s q n
unfolding unlink
unlink_lem s n q e = ground (arith, e)

move_to-IsTree :
    (s : Store) (src : ℕ) (target : Option (ℕ × Bytes))
    → IsTree s
    → is_live (s.nodes src) ≡ true
    → src ≢ s.root
    → DirTarget s target
    → IsTree (move_to s src target).0
unfolding move_to
move_to-IsTree s src none t l nr h = t
move_to-IsTree s src (some (p, leaf)) t l nr h = elim (Option-cases (parent_of s src)) [
  | inl nowhere ↦ absurd (ground (arith, t.tops src))
  | inr (q, e) ↦
      elim (Bool-cases (
        is_empty leaf
        || other_than src (find_child s p leaf)
        || (is_dir s src && not (is_false (is_ancestor_or_self s src p))))) [
          | inl refused ↦ rw refused t
          | inr fine ↦
              let clear = allowed_move s src p (ground arith) in
              let ne = guards s src p h.1 clear in
              rw (fine, unlink_lem s src q e)
                (moved-IsTree s src p q leaf t e h.0 h.1 ne
                  (name_free s src p leaf (find_child s p leaf) t refl (ground arith))
                  (above_target s src p q leaf t e h.0 h.1 ne clear))
        ]
]

directories_only :
    (s : Store) (o : Option (ℕ × Bytes))
    → ShortLeaf o
    → DirTarget s (o >>= λ t. if is_dir s t.0 then some t else none)
directories_only s none h = tt
directories_only s (some t) h = elim (Bool-cases (is_dir s t.0)) [
  | inl yes_dir ↦ rw yes_dir (h, yes_dir)
  | inr no_dir ↦ rw no_dir tt
]

into_or_onto :
    (s : Store) (found : Option ℕ) (leaf : Option (ℕ × Bytes))
    → IsTree s
    → DirTarget s leaf
    → (src : ℕ)
    → DirTarget s (elim found [
      | none ↦ leaf
      | some d ↦ if is_dir s d then some (d, (node s src).name) else leaf
    ])
into_or_onto s none leaf t h src = h
into_or_onto s (some d) leaf t h src = elim (Bool-cases (is_dir s d)) [
  | inl yes_dir ↦ rw yes_dir (t.short src, yes_dir)
  | inr no_dir ↦ rw no_dir h
]

pub resolve_target-DirTarget :
    (s : Store) (base : ℕ) (dest : Bytes) (src : ℕ)
    → IsTree s
    → DirTarget s (resolve_target s base dest src)
unfolding resolve_target
resolve_target-DirTarget s base dest src t =
    into_or_onto s (resolve s base dest) _ t
      (directories_only s (resolve_parent_and_leaf s base dest) (leaf-ShortLeaf s base dest)) src

move_at-IsTree :
    (s : Store) (base : ℕ) (dest : Bytes) (src : Option ℕ)
    → IsTree s
    → Allows (λ n. is_live (s.nodes n) ≡ true) src
    → IsTree (move_at s base dest src).0
unfolding move_at
move_at-IsTree s base dest none t l = t
move_at-IsTree s base dest (some src) t l = elim (Bool-cases (src == s.root)) [
  | inl root ↦ rw root t
  | inr other ↦ rw other (
      move_to-IsTree s src (resolve_target s base dest src) t l (ground arith)
        (resolve_target-DirTarget s base dest src t))
]

pub move_node-IsTree :
    (s : Store) (base : ℕ) (src dest : Bytes)
    → IsTree s
    → is_live (s.nodes base) ≡ true
    → IsTree (move_node s base src dest).0
unfolding move_node
move_node-IsTree s base src dest t l =
    move_at-IsTree s base dest (resolve s base src) t (resolve-live s base src t l)
