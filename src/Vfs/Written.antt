-- ===== src/Vfs/Written.antt =====
-- kernel/src/fs/vfs.rs: what is found after making a node, and after writing a file.
use anss_os.Common.{
  Bool, Bool-cases, Bytes, List, Option, Option-cases, [], ap, arith, false, if◌then◌else◌, inl,
  inr, is_empty, none, not, refl, some, split_on, true, ℕ, ◌++◌, ◌>>=◌, ◌||◌, ◌∙◌, ◌∷◌, ◌≡◌,
}
use anss_os.Vfs.Store.{Store, VnodeType, node, is_dir, update, put_node, alloc_vnode, cut}
use anss_os.Vfs.Paths.{
  find_among, find_child, step_into, resolve_loop, resolve, is_absolute, resolve_parent_and_leaf,
  slash,
}
use anss_os.Vfs.Ops.{
  create_at, create_leaf, create_file, write_at, write_found, write_bytes, write_file, kept_content,
  cat, is_some,
}
use anss_os.Vfs.Forest.{parent_of, children_of, name_of, IsTree, node-put_node}
use anss_os.Vfs.Create.{made-find_child, leaf-ShortLeaf, ShortLeaf}

-- The two stores differ in what files hold at most.
record SameTree (s s' : Store) : Type 0 where
  kinds : (n : ℕ) → (node s' n).kind ≡ (node s n).kind
  parents : (n : ℕ) → parent_of s' n ≡ parent_of s n
  children : (n : ℕ) → children_of s' n ≡ children_of s n
  names : (n : ℕ) → name_of s' n ≡ name_of s n
  root : s'.root ≡ s.root

find_among_same :
    (s s' : Store) (name : Bytes) (xs : List ℕ)
    → SameTree s s'
    → find_among s' name xs ≡ find_among s name xs
unfolding find_among
find_among_same s s' name [] t = refl
find_among_same s s' name (x ∷ xs) t = ground (arith, t.names x, find_among_same s s' name xs t)

step_into_same :
    (s s' : Store) (cur : ℕ) (c : Bytes) → SameTree s s' → step_into s' cur c ≡ step_into s cur c
unfolding step_into find_child
step_into_same s s' cur c t = ground (
  arith,
  t.parents cur,
  t.kinds cur,
  t.children cur,
  find_among_same s s' c (children_of s cur) t,
)

bind_same : {f g : ℕ → Option ℕ} (o : Option ℕ) → ((n : ℕ) → f n ≡ g n) → (o >>= f) ≡ (o >>= g)
bind_same none h = refl
bind_same (some n) h = h n

resolve_loop_same :
    (s s' : Store) (cur : ℕ) (cs : List Bytes)
    → SameTree s s'
    → resolve_loop s' cur cs ≡ resolve_loop s cur cs
unfolding resolve_loop
resolve_loop_same s s' cur [] t = refl
resolve_loop_same s s' cur (c ∷ cs) t =
    rw (step_into_same s s' cur (cut c) t)
      (bind_same (step_into s cur (cut c)) (λ n. resolve_loop_same s s' n cs t))

resolve_same :
    (s s' : Store) (base : ℕ) (path : Bytes)
    → SameTree s s'
    → resolve s' base path ≡ resolve s base path
unfolding resolve
resolve_same s s' base path t =
    resolve_loop_same s s' (if is_absolute path then s'.root else base) (split_on slash [] path) t
    ∙ ap (λ r. resolve_loop s (if is_absolute path then r else base) (split_on slash [] path))
        t.root

content_only :
    (s : Store) (n : ℕ) (bytes : Bytes)
    → SameTree s (update s n (record (node s n) { content = bytes }))
unfolding put_node
content_only s n bytes =
    let same = node-put_node s n in
    let written = some (record (node s n) { content = bytes }) in
    record {
      kinds = λ m. ground (arith, same m written);
      parents = λ m. ground (arith, same m written);
      children = λ m. ground (arith, same m written);
      names = λ m. ground (arith, same m written);
      root = refl;
    }

write_at-cat :
    (s : Store) (base : ℕ) (path bytes : Bytes) (found : Option ℕ)
    → resolve s base path ≡ found
    → (write_at s found bytes).1 ≡ true
    → cat (write_at s found bytes).0 base path ≡ some bytes
unfolding write_at cat
write_at-cat s base path bytes none e done = cc
write_at-cat s base path bytes (some n) e done = elim (Bool-cases (is_dir s n)) [
  | inl directory ↦ absurd (ground (arith, directory))
  | inr plain ↦
      let s' = update s n (record (node s n) { content = bytes }) in
      rw (plain, resolve_same s s' base path (content_only s n bytes), e)
        (ground (arith, node-put_node s n n (some (record (node s n) { content = bytes }))))
]

write_found-cat :
    (s : Store) (base : ℕ) (path bytes : Bytes) (found : Option ℕ)
    → resolve s base path ≡ found
    → (write_found s base path found bytes).1 ≡ true
    → cat (write_found s base path found bytes).0 base path ≡ some bytes
unfolding write_found
write_found-cat s base path bytes none e done = elim (Bool-cases (create_file s base path).1) [
  | inl made ↦
      let s1 = (create_file s base path).0 in
      rw made (write_at-cat s1 base path bytes (resolve s1 base path) refl (ground (arith, made)))
  | inr failed ↦ absurd (ground (arith, failed))
]
write_found-cat s base path bytes (some n) e done = write_at-cat s base path bytes (some n) e done

-- The bytes that were printed, if any were.
abbrev pub or_empty : Option Bytes → Bytes
or_empty none = []
or_empty (some bytes) = bytes

kept-cat :
    (s : Store) (base : ℕ) (path : Bytes) (append : Bool)
    → kept_content s append (resolve s base path)
      ≡ (if append then or_empty (cat s base path) else [])
unfolding kept_content cat
kept-cat s base path append = elim (Option-cases (resolve s base path)) [
  | inl missing ↦ rw missing (ground arith)
  | inr (n, found) ↦ rw found (elim (Bool-cases (is_dir s n)) [
    | inl directory ↦ rw directory (ground arith)
    | inr plain ↦ rw plain (ground arith)
  ])
]

-- When `write_file` succeeds, `cat` of the same path gives the text; if the text was to be appended,
-- it gives what `cat` gave before, or nothing where it gave none, and then the text.
pub write_file-cat :
    (s : Store) (base : ℕ) (path text : Bytes) (append : Bool)
    → (write_file s base path text append).1 ≡ true
    → cat (write_file s base path text append).0 base path
      ≡ some ((if append then or_empty (cat s base path) else []) ++ text)
unfolding write_file write_bytes
write_file-cat s base path text append done =
    write_found-cat s base path (kept_content s append (resolve s base path) ++ text)
      (resolve s base path) refl done
    ∙ ap (λ kept. some (kept ++ text)) (kept-cat s base path append)

missing : (o : Option ℕ) → is_some o ≡ false → o ≡ none
missing none h = refl
missing (some n) h = cc

created_at :
    (s : Store) (kind : VnodeType) (p : ℕ) (leaf : Bytes)
    → IsTree s
    → ShortLeaf (some (p, leaf))
    → (create_at s kind (some (p, leaf))).1 ≡ true
    → (is_dir s p ≡ true)
      × (find_child s p leaf ≡ none)
      × (find_child (create_at s kind (some (p, leaf))).0 p leaf ≡ some s.next)
      × ((node (create_at s kind (some (p, leaf))).0 s.next).kind ≡ kind)
      × (children_of (create_at s kind (some (p, leaf))).0 s.next ≡ [])
unfolding create_at alloc_vnode
created_at s kind p leaf t h done =
    elim (Bool-cases (not (is_dir s p) || is_empty leaf || is_some (find_child s p leaf))) [
      | inl refused ↦ absurd (ground (arith, refused))
      | inr fine ↦
          let absent = missing (find_child s p leaf) (ground (arith, fine)) in
          rw fine (
            let (found, of_kind, parent, bare) =
              made-find_child s kind p leaf t h (ground (arith, fine)) absent in
            (ground (arith, fine), absent, found, of_kind, bare))
    ]

created_in :
    (s : Store) (kind : VnodeType) (target : Option (ℕ × Bytes))
    → IsTree s
    → ShortLeaf target
    → (create_at s kind target).1 ≡ true
    → (p : ℕ) × (leaf : Bytes) × (target ≡ some (p, leaf))
      × (is_dir s p ≡ true)
      × (find_child s p leaf ≡ none)
      × (find_child (create_at s kind target).0 p leaf ≡ some s.next)
      × ((node (create_at s kind target).0 s.next).kind ≡ kind)
      × (children_of (create_at s kind target).0 s.next ≡ [])
unfolding create_at
created_in s kind none t h done = cc
created_in s kind (some (p, leaf)) t h done =
    let (directory, absent, found, of_kind, bare) = created_at s kind p leaf t h done in
    (p, leaf, refl, directory, absent, found, of_kind, bare)

-- When `create_leaf` succeeds on a tree, the path led to a directory and a name that was not in it; now
-- that name leads to the new node, which has the kind that was asked for and no children.
pub created_found :
    (s : Store) (base : ℕ) (path : Bytes) (kind : VnodeType)
    → IsTree s
    → (create_leaf s base path kind).1 ≡ true
    → (p : ℕ) × (leaf : Bytes) × (resolve_parent_and_leaf s base path ≡ some (p, leaf))
      × (is_dir s p ≡ true)
      × (find_child s p leaf ≡ none)
      × (find_child (create_leaf s base path kind).0 p leaf ≡ some s.next)
      × ((node (create_leaf s base path kind).0 s.next).kind ≡ kind)
      × (children_of (create_leaf s base path kind).0 s.next ≡ [])
unfolding create_leaf
created_found s base path kind t done =
    created_in s kind (resolve_parent_and_leaf s base path) t (leaf-ShortLeaf s base path) done
