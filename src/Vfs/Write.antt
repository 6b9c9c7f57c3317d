-- ===== src/Vfs/Write.antt =====
-- kernel/src/fs/vfs.rs: writing files, and whole sequences of operations.
use anss_os.Common.{
  Allows, Bool-cases, Bytes, Option, arith, inl, inr, none, refl, some, true, ℕ, ◌≡◌,
}
use anss_os.Vfs.Store.{
  Store, Vnode, VnodeType, file, node, is_dir, put_node, update, set_name, cut, alloc_vnode,
  link_child, unlink_child,
}
use anss_os.Vfs.Paths.{resolve, resolve_parent_and_leaf}
use anss_os.Vfs.Ops.{
  create_at, unlink, move_at, move_to, resolve_target, create_leaf, create_file, write_at,
  write_found, move_node,
}
use anss_os.Vfs.Forest.{is_live, IsTree}
use anss_os.Vfs.Relabel.{relabel-Forest}
use anss_os.Vfs.Create.{create_leaf-IsTree}
use anss_os.Vfs.Reached.{resolve-live}

-- Only what a node holds is changed.
pub content-IsTree :
    (s : Store) (n : ℕ) (bytes : Bytes)
    → IsTree s
    → is_live (s.nodes n) ≡ true
    → IsTree (update s n (record (node s n) { content = bytes }))
content-IsTree s n bytes t l =
    relabel-Forest s none n (record (node s n) { content = bytes }) t l refl refl refl (inl refl)
      (t.short n)

write_at-IsTree :
    (s : Store) (found : Option ℕ) (bytes : Bytes)
    → IsTree s
    → Allows (λ n. is_live (s.nodes n) ≡ true) found
    → IsTree (write_at s found bytes).0
unfolding write_at
write_at-IsTree s none bytes t l = t
write_at-IsTree s (some n) bytes t l = elim (Bool-cases (is_dir s n)) [
  | inl directory ↦ rw directory t
  | inr plain ↦ rw plain (content-IsTree s n bytes t l)
]

-- No operation but `remove` frees a node.
pub live-update :
    (s : Store) (m n : ℕ) (v : Vnode)
    → is_live (s.nodes n) ≡ true
    → is_live ((update s m v).nodes n) ≡ true
unfolding put_node
live-update s m n v l = ground arith

live-link_child :
    (s : Store) (p c n : ℕ)
    → is_live (s.nodes n) ≡ true
    → is_live ((link_child s p c).nodes n) ≡ true
unfolding link_child put_node
live-link_child s p c n l = ground arith

live-unlink :
    (s : Store) (c n : ℕ) → is_live (s.nodes n) ≡ true → is_live ((unlink s c).nodes n) ≡ true
unfolding unlink unlink_child put_node
live-unlink s c n l = ground arith

live-create_at :
    (s : Store) (kind : VnodeType) (target : Option (ℕ × Bytes)) (n : ℕ)
    → is_live (s.nodes n) ≡ true
    → is_live ((create_at s kind target).0.nodes n) ≡ true
unfolding create_at alloc_vnode link_child put_node
live-create_at s kind none n l = l
live-create_at s kind (some (p, leaf)) n l = ground arith

pub live-create_leaf :
    (s : Store) (base : ℕ) (path : Bytes) (kind : VnodeType) (n : ℕ)
    → is_live (s.nodes n) ≡ true
    → is_live ((create_leaf s base path kind).0.nodes n) ≡ true
unfolding create_leaf
live-create_leaf s base path kind n l =
    live-create_at s kind (resolve_parent_and_leaf s base path) n l

live-move_to :
    (s : Store) (src : ℕ) (target : Option (ℕ × Bytes)) (n : ℕ)
    → is_live (s.nodes n) ≡ true
    → is_live ((move_to s src target).0.nodes n) ≡ true
unfolding move_to set_name
live-move_to s src none n l = l
live-move_to s src (some (p, leaf)) n l =
    let cut_off = unlink s src in
    let renamed = record (node cut_off src) { name = cut leaf } in
    ground (
      arith,
      live-unlink s src n l,
      live-update cut_off src n renamed,
      live-link_child (update cut_off src renamed) p src n,
    )

live-move_at :
    (s : Store) (base : ℕ) (dest : Bytes) (found : Option ℕ) (n : ℕ)
    → is_live (s.nodes n) ≡ true
    → is_live ((move_at s base dest found).0.nodes n) ≡ true
unfolding move_at
live-move_at s base dest none n l = l
live-move_at s base dest (some src) n l =
    ground (arith, live-move_to s src (resolve_target s base dest src) n l)

pub live-move_node :
    (s : Store) (base : ℕ) (src dest : Bytes) (n : ℕ)
    → is_live (s.nodes n) ≡ true
    → is_live ((move_node s base src dest).0.nodes n) ≡ true
unfolding move_node
live-move_node s base src dest n l = live-move_at s base dest (resolve s base src) n l

live-write_at :
    (s : Store) (found : Option ℕ) (bytes : Bytes) (n : ℕ)
    → is_live (s.nodes n) ≡ true
    → is_live ((write_at s found bytes).0.nodes n) ≡ true
unfolding write_at
live-write_at s none bytes n l = l
live-write_at s (some m) bytes n l =
    ground (arith, live-update s m n (record (node s m) { content = bytes }) l)

pub live-write_found :
    (s : Store) (base : ℕ) (path : Bytes) (found : Option ℕ) (bytes : Bytes) (n : ℕ)
    → is_live (s.nodes n) ≡ true
    → is_live ((write_found s base path found bytes).0.nodes n) ≡ true
unfolding write_found create_file
live-write_found s base path none bytes n l =
    let s1 = (create_leaf s base path file).0 in
    let still = live-create_leaf s base path file n l in
    ground (arith, still, live-write_at s1 (resolve s1 base path) bytes n still)
live-write_found s base path (some m) bytes n l = live-write_at s (some m) bytes n l

pub write_found-IsTree :
    (s : Store) (base : ℕ) (path : Bytes) (found : Option ℕ) (bytes : Bytes)
    → IsTree s
    → is_live (s.nodes base) ≡ true
    → Allows (λ n. is_live (s.nodes n) ≡ true) found
    → IsTree (write_found s base path found bytes).0
unfolding write_found create_file
write_found-IsTree s base path none bytes t l h =
    let s1 = (create_leaf s base path file).0 in
    let t1 = create_leaf-IsTree s base path file t in
    elim (Bool-cases (create_leaf s base path file).1) [
      | inl made ↦ rw made (
          write_at-IsTree s1 (resolve s1 base path) bytes t1
            (resolve-live s1 base path t1 (live-create_leaf s base path file base l)))
      | inr failed ↦ rw failed t1
    ]
write_found-IsTree s base path (some n) bytes t l h = write_at-IsTree s (some n) bytes t h
