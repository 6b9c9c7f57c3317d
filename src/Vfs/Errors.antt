-- ===== src/Vfs/Errors.antt =====
-- kernel/src/fs/vfs.rs: requests that fail.
use anss_os.Common.{Bool, Bytes, Option, arith, false, none, refl, some, ℕ, ◌≡◌}
use anss_os.Vfs.Store.{Store, VnodeType}
use anss_os.Vfs.Paths.{resolve, resolve_parent_and_leaf}
use anss_os.Vfs.Ops.{
  create_at, create_leaf, remove_at, remove, resolve_target, move_to, move_at, move_node, copy_to,
  copy_at, copy,
}

-- The requests that change which nodes there are, or where they hang.
pub data Request : Type 0 where
  make : Bytes → VnodeType → Request
  delete : Bytes → ℕ → Request
  move duplicate : Bytes → Bytes → Request

unfoldable pub request : Store → ℕ → Request → Store × Bool
request s base (make path kind) = create_leaf s base path kind
request s base (delete path cwd) = remove s base path cwd
request s base (move src dest) = move_node s base src dest
request s base (duplicate src dest) = copy s base src dest

create_at-fails :
    (s : Store) (kind : VnodeType) (target : Option (ℕ × Bytes))
    → (create_at s kind target).1 ≡ false
    → (create_at s kind target).0 ≡ s
unfolding create_at
create_at-fails s kind none h = refl
create_at-fails s kind (some (p, leaf)) h = ground arith

pub remove_at-fails :
    (s : Store) (cwd : ℕ) (found : Option ℕ)
    → (remove_at s cwd found).1 ≡ false
    → (remove_at s cwd found).0 ≡ s
unfolding remove_at
remove_at-fails s cwd none h = refl
remove_at-fails s cwd (some n) h = ground arith

move_to-fails :
    (s : Store) (src : ℕ) (target : Option (ℕ × Bytes))
    → (move_to s src target).1 ≡ false
    → (move_to s src target).0 ≡ s
unfolding move_to
move_to-fails s src none h = refl
move_to-fails s src (some (p, leaf)) h = ground arith

move_at-fails :
    (s : Store) (base : ℕ) (dest : Bytes) (found : Option ℕ)
    → (move_at s base dest found).1 ≡ false
    → (move_at s base dest found).0 ≡ s
unfolding move_at
move_at-fails s base dest none h = refl
move_at-fails s base dest (some src) h =
    ground (arith, move_to-fails s src (resolve_target s base dest src))

copy_to-fails :
    (s : Store) (src : ℕ) (target : Option (ℕ × Bytes))
    → (copy_to s src target).1 ≡ false
    → (copy_to s src target).0 ≡ s
unfolding copy_to
copy_to-fails s src none h = refl
copy_to-fails s src (some (p, leaf)) h = ground arith

copy_at-fails :
    (s : Store) (base : ℕ) (dest : Bytes) (found : Option ℕ)
    → (copy_at s base dest found).1 ≡ false
    → (copy_at s base dest found).0 ≡ s
unfolding copy_at
copy_at-fails s base dest none h = refl
copy_at-fails s base dest (some src) h = copy_to-fails s src (resolve_target s base dest src) h

-- Making, removing, moving and copying: whichever check fails, the file system stays as it was.
pub failed_keeps :
    (s : Store) (base : ℕ) (r : Request) → (request s base r).1 ≡ false → (request s base r).0 ≡ s
unfolding request create_leaf remove move_node copy
failed_keeps s base (make path kind) h =
    create_at-fails s kind (resolve_parent_and_leaf s base path) h
failed_keeps s base (delete path cwd) h = remove_at-fails s cwd (resolve s base path) h
failed_keeps s base (move src dest) h = move_at-fails s base dest (resolve s base src) h
failed_keeps s base (duplicate src dest) h = copy_at-fails s base dest (resolve s base src) h
