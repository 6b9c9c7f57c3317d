-- ===== src/Vfs/Tests.antt =====
-- kernel/src/fs/vfs.rs at concrete inputs.
use anss_os.Common.{
  Bool, Bytes, List, [], bytes_eq, codes, false, floor_char_boundary, floor_from, if◌then◌else◌,
  is_char_boundary, none, refl, rfind, rfind_from, some, split_on, trim_end, true, ℕ, ◌++◌, ◌↔◌,
  ◌∷◌, ◌≡◌,
}
use anss_os.Vfs.Store.{
  Store, is_dir, dir, node, put_node, set_name, cut, alloc_vnode, link_child, unlink_child, without,
  climb, is_ancestor_or_self, init,
}
use anss_os.Vfs.Paths.{
  find_among, find_child, step_into, resolve_loop, resolve, split_leaf, resolve_parent_and_leaf,
}
use anss_os.Vfs.Ops.{
  create_at, create_leaf, create_file, free_all, free_tree, unlink, remove_at, remove as rm,
  resolve_target, move_to, move_at, move_node, write_at, write_found, write_bytes, write_file,
  kept_content, cat,
}
use anss_os.Vfs.Forest.{is_live, children_of, IsTree}
use anss_os.Vfs.Run.{Op, make, write, step, run, run-IsTree}
use anss_os.Vfs.Remove.{removed_exactly}
use anss_os.Vfs.Depth.{Above, is_ancestor_or_self-returns}
use anss_os.Vfs.Errors.{request, failed_keeps}
use anss_os.Vfs.Errors as Errors
use anss_os.Vfs.Written.{or_empty, write_file-cat, created_found}

abbrev steps : List Op
steps = make (codes "a") dir ∷ write (codes "a/f") (codes "hi") false ∷ []

abbrev home : Store
home = run init 0 steps

run-IsTree_example : IsTree home
run-IsTree_example = run-IsTree steps

-- "/", "/a" and "/a/f" are the nodes 0 to 2.
home_live : (is_live (home.nodes 0) ≡ true) × (is_live (home.nodes 2) ≡ true)
unfolding run step create_leaf create_at create_file find_child find_among step_into resolve_loop
    resolve split_leaf resolve_parent_and_leaf node put_node cut alloc_vnode link_child unlink_child
    without unlink climb is_ancestor_or_self init move_node move_at move_to set_name resolve_target
    write_file write_bytes write_found write_at kept_content bytes_eq split_on trim_end rfind
    rfind_from floor_char_boundary floor_from is_char_boundary
home_live = (refl, refl)

is_ancestor_or_self-returns_example :
    (b : Bool) × (is_ancestor_or_self home 1 2 ≡ some b) × ((b ≡ true) ↔ Above home 1 2)
is_ancestor_or_self-returns_example =
    is_ancestor_or_self-returns home 1 2 (run-IsTree steps) home_live.1

home-resolve : resolve home 0 (codes "a") ≡ some 1
unfolding run step create_leaf create_at create_file find_child find_among step_into resolve_loop
    resolve split_leaf resolve_parent_and_leaf node put_node cut alloc_vnode link_child unlink_child
    without unlink climb is_ancestor_or_self init move_node move_at move_to set_name resolve_target
    write_file write_bytes write_found write_at kept_content bytes_eq split_on trim_end rfind
    rfind_from floor_char_boundary floor_from is_char_boundary
home-resolve = refl

a_removed : (rm home 0 (codes "a") 0).1 ≡ true
unfolding rm remove_at free_all free_tree run step create_leaf create_at create_file find_child
    find_among step_into resolve_loop resolve split_leaf resolve_parent_and_leaf node put_node cut
    alloc_vnode link_child unlink_child without unlink climb is_ancestor_or_self init move_node
    move_at move_to set_name resolve_target write_file write_bytes write_found write_at kept_content
    bytes_eq split_on trim_end rfind rfind_from floor_char_boundary floor_from is_char_boundary
a_removed = refl

removed_exactly_example : (is_live ((rm home 0 (codes "a") 0).0.nodes 2) ≡ false) ↔ Above home 1 2
removed_exactly_example =
    removed_exactly home 0 (codes "a") 0 1 2 (run-IsTree steps) home_live.0 home-resolve a_removed
      home_live.1

into_itself : (request home 0 (Errors.move (codes "a") (codes "a/b"))).1 ≡ false
unfolding request run step create_leaf create_at create_file find_child find_among step_into
    resolve_loop resolve split_leaf resolve_parent_and_leaf node put_node cut alloc_vnode link_child
    unlink_child without unlink climb is_ancestor_or_self init move_node move_at move_to set_name
    resolve_target write_file write_bytes write_found write_at kept_content bytes_eq split_on
    trim_end rfind rfind_from floor_char_boundary floor_from is_char_boundary
into_itself = refl

failed_keeps_example : (request home 0 (Errors.move (codes "a") (codes "a/b"))).0 ≡ home
failed_keeps_example = failed_keeps home 0 (Errors.move (codes "a") (codes "a/b")) into_itself

appended : (write_file home 0 (codes "a/f") (codes "!") true).1 ≡ true
unfolding run step create_leaf create_at create_file find_child find_among step_into resolve_loop
    resolve split_leaf resolve_parent_and_leaf node put_node cut alloc_vnode link_child unlink_child
    without unlink climb is_ancestor_or_self init move_node move_at move_to set_name resolve_target
    write_file write_bytes write_found write_at kept_content bytes_eq split_on trim_end rfind
    rfind_from floor_char_boundary floor_from is_char_boundary
appended = refl

write_file-cat_example :
    cat (write_file home 0 (codes "a/f") (codes "!") true).0 0 (codes "a/f")
    ≡ some ((if true then or_empty (cat home 0 (codes "a/f")) else []) ++ codes "!")
write_file-cat_example = write_file-cat home 0 (codes "a/f") (codes "!") true appended

b_created : (create_leaf home 0 (codes "a/b") dir).1 ≡ true
unfolding run step create_leaf create_at create_file find_child find_among step_into resolve_loop
    resolve split_leaf resolve_parent_and_leaf node put_node cut alloc_vnode link_child unlink_child
    without unlink climb is_ancestor_or_self init move_node move_at move_to set_name resolve_target
    write_file write_bytes write_found write_at kept_content bytes_eq split_on trim_end rfind
    rfind_from floor_char_boundary floor_from is_char_boundary
b_created = refl

created_found_example :
    (p : ℕ) × (leaf : Bytes) × (resolve_parent_and_leaf home 0 (codes "a/b") ≡ some (p, leaf))
    × (is_dir home p ≡ true)
    × (find_child home p leaf ≡ none)
    × (find_child (create_leaf home 0 (codes "a/b") dir).0 p leaf ≡ some home.next)
    × ((node (create_leaf home 0 (codes "a/b") dir).0 home.next).kind ≡ dir)
    × (children_of (create_leaf home 0 (codes "a/b") dir).0 home.next ≡ [])
created_found_example = created_found home 0 (codes "a/b") dir (run-IsTree steps) b_created
