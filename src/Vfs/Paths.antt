-- ===== src/Vfs/Paths.antt =====
-- kernel/src/fs/vfs.rs: paths.
use anss_os.Common.{
  Bool, Bytes, List, Option, [], bytes_eq, codes, drop, false, if◌then◌else◌, is_empty, none, not,
  rfind, some, split_on, suc, take, trim_end, zero, ℕ, ◌++◌, ◌+◌, ◌==◌, ◌>>=◌, ◌||◌, ◌∷◌,
}
use anss_os.Vfs.Store.{Store, node, is_dir, cut}

abbrev pub slash : ℕ
slash = b'/'

unfoldable pub find_among : Store → Bytes → List ℕ → Option ℕ
find_among s name [] = none
find_among s name (c ∷ cs) = if bytes_eq (node s c).name name then some c else find_among s name cs

unfoldable pub find_child : Store → ℕ → Bytes → Option ℕ
find_child s n name = find_among s name (node s n).children

abbrev pub or_self : ℕ → Option ℕ → ℕ
or_self n none = n
or_self n (some p) = p

-- One component of a path, cut already.
unfoldable pub step_into : Store → ℕ → Bytes → Option ℕ
step_into s cur component =
    if is_empty component || bytes_eq component (codes ".")
    then some cur
    else if bytes_eq component (codes "..")
    then some (or_self cur (node s cur).parent)
    else if not (is_dir s cur)
    then none
    else find_child s cur component

unfoldable pub resolve_loop : Store → ℕ → List Bytes → Option ℕ
resolve_loop s cur [] = some cur
resolve_loop s cur (c ∷ cs) = step_into s cur (cut c) >>= λ n. resolve_loop s n cs

abbrev pub is_absolute : Bytes → Bool
is_absolute [] = false
is_absolute (b ∷ bs) = b == slash

unfoldable pub resolve : Store → ℕ → Bytes → Option ℕ
resolve s base path =
    resolve_loop s (if is_absolute path then s.root else base) (split_on slash [] path)

unfoldable pub split_leaf : Store → ℕ → Bytes → Option ℕ → Option (ℕ × Bytes)
split_leaf s base path none = some (base, cut path)
split_leaf s base path (some zero) = some (s.root, cut (drop 1 path))
split_leaf s base path (some (suc i)) =
    resolve s base (take (suc i) path) >>= λ parent. some (parent, cut (drop (i + 2) path))

unfoldable pub resolve_parent_and_leaf : Store → ℕ → Bytes → Option (ℕ × Bytes)
resolve_parent_and_leaf s base path =
    let trimmed = trim_end slash path in
    if is_empty trimmed then none else split_leaf s base trimmed (rfind slash trimmed)

-- The names from a node up to the root, nearest first; `none` when the rounds run out.
unfoldable pub path_parts : ℕ → Store → Option ℕ → Option (List Bytes)
path_parts rounds s none = some []
path_parts zero s (some n) = none
path_parts (suc rounds) s (some n) =
    let rest = path_parts rounds s (node s n).parent >>= λ ps. some ((node s n).name ∷ ps) in
    if n == s.root then some [] else rest

unfoldable pub join_parts : Bytes → List Bytes → Bytes
join_parts acc [] = acc
join_parts acc (p ∷ ps) = join_parts (slash ∷ p ++ acc) ps

unfoldable pub path_of : Store → ℕ → Option Bytes
path_of s n = path_parts (s.next + 1) s (some n) >>= λ parts.
    some (if is_empty parts then slash ∷ [] else join_parts [] parts)
