-- ===== src/Vfs/Run.antt =====
-- kernel/src/fs/vfs.rs: sequences of operations.
use anss_os.Common.{
  Bool, Bytes, List, [], arith, none, refl, subst, sym, true, ℕ, ◌++◌, ◌==◌, ◌∷◌, ◌≡◌,
}
use anss_os.Vfs.Store.{Store, VnodeType, node, init}
use anss_os.Vfs.Paths.{resolve}
use anss_os.Vfs.Ops.{create_leaf, move_node, write_bytes, write_file, kept_content, remove}
use anss_os.Vfs.Forest.{parent_of, children_of, name_of, is_live, NoRepeat, top, IsTree}
use anss_os.Vfs.Create.{create_leaf-IsTree}
use anss_os.Vfs.Reached.{resolve-live}
use anss_os.Vfs.Move.{move_node-IsTree}
use anss_os.Vfs.Write.{write_found-IsTree, live-create_leaf, live-move_node, live-write_found}
use anss_os.Vfs.Remove.{remove_at-Safe}

-- What keeps the tree, and a node that paths start at.
abbrev pub Safe : Store → ℕ → Type 0
Safe s base = IsTree s × (is_live (s.nodes base) ≡ true)

-- A request to the file system, by one process that stays in one directory.
pub data Op : Type 0 where
  make : Bytes → VnodeType → Op
  move : Bytes → Bytes → Op
  write : Bytes → Bytes → Bool → Op
  delete : Bytes → Op

unfoldable pub step : Store → ℕ → Op → Store × Bool
step s base (make path kind) = create_leaf s base path kind
step s base (move src dest) = move_node s base src dest
step s base (write path text append) = write_file s base path text append
step s base (delete path) = remove s base path base

pub step-Safe : (s : Store) (base : ℕ) (op : Op) → Safe s base → Safe (step s base op).0 base
unfolding step write_file write_bytes remove
step-Safe s base (make path kind) (t, l) =
    (create_leaf-IsTree s base path kind t, live-create_leaf s base path kind base l)
step-Safe s base (move src dest) (t, l) =
    (move_node-IsTree s base src dest t l, live-move_node s base src dest base l)
step-Safe s base (write path text append) (t, l) =
    let bytes = kept_content s append (resolve s base path) ++ text in
    (
      write_found-IsTree s base path (resolve s base path) bytes t l (resolve-live s base path t l),
      live-write_found s base path (resolve s base path) bytes base l,
    )
step-Safe s base (delete path) (t, l) =
    remove_at-Safe s base (resolve s base path) t l (resolve-live s base path t l)

unfoldable pub run : Store → ℕ → List Op → Store
run s base [] = s
run s base (op ∷ ops) = run (step s base op).0 base ops

run-Safe : (s : Store) (base : ℕ) (ops : List Op) → Safe s base → Safe (run s base ops) base
unfolding run
run-Safe s base [] h = h
run-Safe s base (op ∷ ops) h = run-Safe (step s base op).0 base ops (step-Safe s base op h)

init-bare :
    (n : ℕ)
    → (children_of init n ≡ [])
      × (parent_of init n ≡ none)
      × (name_of init n ≡ [])
      × (is_live (init.nodes n) ≡ (n == 0))
unfolding init node
init-bare n = (ground arith, ground arith, ground arith, ground arith)

init-IsTree : IsTree init
unfolding init node
init-IsTree = record {
  links = λ c p. ground (arith, init-bare p, init-bare c);
  once = λ p. subst NoRepeat (sym (init-bare p).0) tt;
  in_dirs = λ c p e. ground (arith, init-bare c);
  tops = λ n l e. ground (arith, init-bare n);
  names = λ a b p e f g. ground (arith, init-bare a);
  short = λ n. ground (arith, init-bare n);
  climbs = λ n l. top n (ground (arith, init-bare n));
  root_dir = refl;
  root_top = refl;
  unused = λ n h. ground arith;
}

-- Whatever directories and files are made, moved, written and removed, in whatever order and with whatever
-- paths, from the store as it is after boot: parents and children agree, no child is listed twice and
-- only directories have children, no two children of a directory have the same name, every name is
-- shorter than 64 bytes, and from every node the parents lead up to the root.
pub run-IsTree : (ops : List Op) → IsTree (run init 0 ops)
unfolding init
run-IsTree ops = (run-Safe init 0 ops (init-IsTree, refl)).0
