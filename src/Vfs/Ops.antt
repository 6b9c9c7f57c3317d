-- ===== src/Vfs/Ops.antt =====
-- kernel/src/fs/vfs.rs: the operations. Each gives the store and whether it succeeded.
use anss_os.Common.{
  Bool, Bytes, List, Option, [], false, if◌then◌else◌, is_empty, map, none, not, some, suc, true,
  zero, ℕ, ◌&&◌, ◌++◌, ◌==◌, ◌>>=◌, ◌||◌, ◌∷◌,
}
use anss_os.Vfs.Store.{
  Store, VnodeType, dir, file, node, is_dir, update, put_node, set_name, alloc_vnode, link_child,
  unlink_child, is_ancestor_or_self,
}
use anss_os.Vfs.Paths.{slash, resolve, resolve_parent_and_leaf, find_child}

-- The walk to the root came to its end and did not meet the node.
abbrev pub is_false : Option Bool → Bool
is_false (some false) = true
is_false (some true) = false
is_false none = false

abbrev pub is_some : Option ℕ → Bool
is_some none = false
is_some (some n) = true

-- `create_leaf`, once the parent and the leaf are known.
unfoldable pub create_at : Store → VnodeType → Option (ℕ × Bytes) → Store × Bool
create_at s kind none = (s, false)
create_at s kind (some (parent, leaf)) =
    if not (is_dir s parent) || is_empty leaf || is_some (find_child s parent leaf)
    then (s, false)
    else (let (s1, child) = alloc_vnode s leaf kind in (link_child s1 parent child, true))

unfoldable pub create_leaf : Store → ℕ → Bytes → VnodeType → Store × Bool
create_leaf s base path kind = create_at s kind (resolve_parent_and_leaf s base path)

unfoldable pub mkdir : Store → ℕ → Bytes → Store × Bool
mkdir s base path = create_leaf s base path dir

unfoldable pub create_file : Store → ℕ → Bytes → Store × Bool
create_file s base path = create_leaf s base path file

-- The children one after the other.
unfoldable pub free_all : (Store → ℕ → Store) → Store → List ℕ → Store
free_all free s [] = s
free_all free s (c ∷ cs) = free_all free (free s c) cs

-- Down to `depth` levels of directories.
unfoldable pub free_tree : ℕ → Store → ℕ → Store
free_tree zero s n = s
free_tree (suc depth) s n =
    put_node (if is_dir s n then free_all (free_tree depth) s (node s n).children else s) n none

unfoldable pub unlink : Store → ℕ → Store
unlink s n = elim (node s n).parent [ none ↦ s | some p ↦ unlink_child s p n ]

unfoldable pub remove_at : Store → ℕ → Option ℕ → Store × Bool
remove_at s cwd none = (s, false)
remove_at s cwd (some n) =
    if n == s.root || not (is_false (is_ancestor_or_self s n cwd))
    then (s, false)
    else (free_tree s.next (unlink s n) n, true)

unfoldable pub remove : Store → ℕ → Bytes → ℕ → Store × Bool
remove s base path cwd = remove_at s cwd (resolve s base path)

unfoldable pub resolve_target : Store → ℕ → Bytes → ℕ → Option (ℕ × Bytes)
resolve_target s base dest src =
    let leaf = resolve_parent_and_leaf s base dest >>= λ t. if is_dir s t.0 then some t else none in
    elim (resolve s base dest) [
      | none ↦ leaf
      | some d ↦ if is_dir s d then some (d, (node s src).name) else leaf
    ]

abbrev pub other_than : ℕ → Option ℕ → Bool
other_than n none = false
other_than n (some m) = not (m == n)

-- The checks of `move_node` on the target, and the move.
unfoldable pub move_to : Store → ℕ → Option (ℕ × Bytes) → Store × Bool
move_to s src none = (s, false)
move_to s src (some (parent, leaf)) =
    if is_empty leaf
      || other_than src (find_child s parent leaf)
      || (is_dir s src && not (is_false (is_ancestor_or_self s src parent)))
    then (s, false)
    else (link_child (set_name (unlink s src) src leaf) parent src, true)

unfoldable pub move_at : Store → ℕ → Bytes → Option ℕ → Store × Bool
move_at s base dest none = (s, false)
move_at s base dest (some src) =
    if src == s.root then (s, false) else move_to s src (resolve_target s base dest src)

unfoldable pub move_node : Store → ℕ → Bytes → Bytes → Store × Bool
move_node s base src dest = move_at s base dest (resolve s base src)

-- The copies of the children, each linked to the copy of their directory.
unfoldable pub copy_all : (Store → ℕ → Bytes → Store × ℕ) → Store → ℕ → List ℕ → Store
copy_all copy s to [] = s
copy_all copy s to (c ∷ cs) =
    let (s1, child) = copy s c (node s c).name in copy_all copy (link_child s1 to child) to cs

-- Down to `depth` levels of directories.
unfoldable pub copy_recursive : ℕ → Store → ℕ → Bytes → Store × ℕ
copy_recursive zero s src name = alloc_vnode s name (node s src).kind
copy_recursive (suc depth) s src name =
    let (s1, copy) = alloc_vnode s name (node s src).kind in
    if is_dir s src
    then (copy_all (copy_recursive depth) s1 copy (node s src).children, copy)
    else (update s1 copy (record (node s1 copy) { content = (node s src).content }), copy)

unfoldable pub copy_to : Store → ℕ → Option (ℕ × Bytes) → Store × Bool
copy_to s src none = (s, false)
copy_to s src (some (parent, leaf)) =
    let (s1, copy) = copy_recursive s.next s src leaf in
    if is_empty leaf
      || is_some (find_child s parent leaf)
      || (is_dir s src && not (is_false (is_ancestor_or_self s src parent)))
    then (s, false)
    else (link_child s1 parent copy, true)

unfoldable pub copy_at : Store → ℕ → Bytes → Option ℕ → Store × Bool
copy_at s base dest none = (s, false)
copy_at s base dest (some src) = copy_to s src (resolve_target s base dest src)

unfoldable pub copy : Store → ℕ → Bytes → Bytes → Store × Bool
copy s base src dest = copy_at s base dest (resolve s base src)

-- The content of a file that was found.
unfoldable pub write_at : Store → Option ℕ → Bytes → Store × Bool
write_at s none bytes = (s, false)
write_at s (some n) bytes =
    if is_dir s n then (s, false) else (update s n (record (node s n) { content = bytes }), true)

-- The file is created first when the path leads nowhere.
unfoldable pub write_found : Store → ℕ → Bytes → Option ℕ → Bytes → Store × Bool
write_found s base path none bytes =
    let (s1, made) = create_file s base path in
    if made then write_at s1 (resolve s1 base path) bytes else (s1, false)
write_found s base path (some n) bytes = write_at s (some n) bytes

unfoldable pub write_bytes : Store → ℕ → Bytes → Bytes → Store × Bool
write_bytes s base path bytes = write_found s base path (resolve s base path) bytes

-- What the file held already, where the text is appended.
unfoldable pub kept_content : Store → Bool → Option ℕ → Bytes
kept_content s append none = []
kept_content s append (some n) = if append && not (is_dir s n) then (node s n).content else []

unfoldable pub write_file : Store → ℕ → Bytes → Bytes → Bool → Store × Bool
write_file s base path text append =
    write_bytes s base path (kept_content s append (resolve s base path) ++ text)

-- What `cat` prints.
unfoldable pub cat : Store → ℕ → Bytes → Option Bytes
cat s base path = resolve s base path >>= λ n. if is_dir s n then none else some (node s n).content

-- What `list` prints: the names, with a slash after those of directories.
unfoldable pub list : Store → ℕ → Bytes → Option (List Bytes)
list s base path = (if is_empty path then some base else resolve s base path) >>= λ d.
    if is_dir s d
    then some
        (map (λ c. (node s c).name ++ (if is_dir s c then slash ∷ [] else [])) (node s d).children)
    else none
