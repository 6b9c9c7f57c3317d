-- ===== src/Vfs/Reached.antt =====
-- kernel/src/fs/vfs.rs: what a path leads to.
use anss_os.Common.{
  Allows, Allows-bind, Bool-cases, Bytes, List, Option, [], ap, arith, bytes_eq, bytes_eq→eq,
  if◌then◌else◌, inl, inr, none, refl, some, split_on, true, ℕ, ◌∙◌, ◌∷◌, ◌≡◌,
}
use anss_os.Vfs.Store.{Store, has, cut}
use anss_os.Vfs.Paths.{
  slash, is_absolute, or_self, step_into, resolve_loop, find_among, find_child, resolve,
}
use anss_os.Vfs.Forest.{parent_of, children_of, name_of, is_live, points_to, IsTree}
use anss_os.Vfs.Linking.{dir-is_live, child-is_live}

-- A node that is found by name has that name and is listed.
pub find_among-some :
    (s : Store) (name : Bytes) (xs : List ℕ) (b : ℕ)
    → find_among s name xs ≡ some b
    → (has b xs ≡ true) × (name_of s b ≡ name)
unfolding find_among
find_among-some s name [] b f = cc
find_among-some s name (x ∷ xs) b f = elim (Bool-cases (bytes_eq (name_of s x) name)) [
  | inl here ↦ ground (arith, bytes_eq→eq (name_of s x) name here, here)
  | inr other ↦ ground (arith, other, find_among-some s name xs b)
]

or_self-live :
    (s : Store) (cur : ℕ) (o : Option ℕ)
    → IsTree s
    → is_live (s.nodes cur) ≡ true
    → parent_of s cur ≡ o
    → is_live (s.nodes (or_self cur o)) ≡ true
or_self-live s cur none t l e = l
or_self-live s cur (some p) t l e = dir-is_live s p (t.in_dirs cur p e)

found-live :
    (s : Store) (cur : ℕ) (name : Bytes) (o : Option ℕ)
    → IsTree s
    → find_among s name (children_of s cur) ≡ o
    → Allows (λ n. is_live (s.nodes n) ≡ true) o
found-live s cur name none t e = tt
found-live s cur name (some n) t e =
    let there = find_among-some s name (children_of s cur) n e in
    child-is_live s n cur (is_parent (parent_of s n) refl (ground (arith, t.links n cur, there)))
  where
    is_parent :
        (o : Option ℕ) → parent_of s n ≡ o → points_to o cur ≡ true → parent_of s n ≡ some cur
    is_parent none f h = cc
    is_parent (some q) f h = f ∙ ap some (ground arith)

step_into-live :
    (s : Store) (cur : ℕ) (c : Bytes)
    → IsTree s
    → is_live (s.nodes cur) ≡ true
    → Allows (λ n. is_live (s.nodes n) ≡ true) (step_into s cur c)
unfolding step_into find_child
step_into-live s cur c t l = ground (
  arith,
  or_self-live s cur (parent_of s cur) t l refl,
  found-live s cur c (find_among s c (children_of s cur)) t refl,
)

resolve_loop-live :
    (s : Store) (cur : ℕ) (cs : List Bytes)
    → IsTree s
    → is_live (s.nodes cur) ≡ true
    → Allows (λ n. is_live (s.nodes n) ≡ true) (resolve_loop s cur cs)
unfolding resolve_loop
resolve_loop-live s cur [] t l = l
resolve_loop-live s cur (c ∷ cs) t l =
    Allows-bind (λ n. is_live (s.nodes n) ≡ true) (λ n. is_live (s.nodes n) ≡ true)
      (step_into s cur (cut c)) (λ n. resolve_loop s n cs) (step_into-live s cur (cut c) t l)
      (λ n h. resolve_loop-live s n cs t h)

-- A path that leads somewhere leads to a node.
pub resolve-live :
    (s : Store) (base : ℕ) (path : Bytes)
    → IsTree s
    → is_live (s.nodes base) ≡ true
    → Allows (λ n. is_live (s.nodes n) ≡ true) (resolve s base path)
unfolding resolve
resolve-live s base path t l =
    resolve_loop-live s (if is_absolute path then s.root else base) (split_on slash [] path) t
      (ground (arith, dir-is_live s s.root t.root_dir))
