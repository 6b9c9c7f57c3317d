-- ===== src/Syscall/Safe.antt =====
-- kernel/src/exec/syscall.rs: what the calls keep of the file system and the processes' directories.
use anss_os.Common.{
  Allows, Allows-Unit, Bool-cases, Bytes, List, Option, [], ap, arith, false, get_elem?, inl, inr,
  none, refl, set, some, subst, suc, true, zero, ℕ, ◌∙◌, ◌∷◌, ◌≡◌,
}
use anss_os.Vfs.Store.{Store, dir, is_dir}
use anss_os.Vfs.Paths.{resolve}
use anss_os.Vfs.Ops.{mkdir, create_leaf, remove_at, remove as rm, move_node}
use anss_os.Vfs.Forest.{is_live, IsTree}
use anss_os.Vfs.Create.{create_leaf-IsTree}
use anss_os.Vfs.Reached.{resolve-live}
use anss_os.Vfs.Move.{move_node-IsTree}
use anss_os.Vfs.Write.{live-create_leaf, live-move_node}
use anss_os.Vfs.Depth.{Above, is_ancestor_or_self-returns}
use anss_os.Vfs.Remove.{removed_at, remove_at-Safe}
use anss_os.Vfs.Errors.{remove_at-fails}
use anss_os.Syscall.{Task, Kernel, User, user_str, put_task}
use anss_os.Syscall.Files.{
  on_some, as_task, enter, sys_chdir, sys_mkdir, cwd_within, unlink_path, sys_unlink, sys_rename,
}

-- Every task's directory is a node of the store.
abbrev pub CwdsLive : Store → List Task → Type 0
CwdsLive s [] = Unit
CwdsLive s (t ∷ ts) = (is_live (s.nodes t.cwd) ≡ true) × CwdsLive s ts

-- The file system is a tree, and no process stands in a directory that was freed.
pub record Safe (k : Kernel) : Type 0 where
  pub tree : IsTree k.store
  pub cwds : CwdsLive k.store k.tasks

abbrev pub Keeps : Store → Store → Type 0
Keeps s s' = (n : ℕ) → is_live (s.nodes n) ≡ true → is_live (s'.nodes n) ≡ true

pub keep_cwds : (s s' : Store) (ts : List Task) → Keeps s s' → CwdsLive s ts → CwdsLive s' ts
keep_cwds s s' [] h c = tt
keep_cwds s s' (t ∷ ts) h (l, c) = (h t.cwd l, keep_cwds s s' ts h c)

set-CwdsLive :
    (s : Store) (ts : List Task) (i : ℕ) (t : Task)
    → CwdsLive s ts
    → is_live (s.nodes t.cwd) ≡ true
    → CwdsLive s (set ts i t)
set-CwdsLive s [] i t c l = tt
set-CwdsLive s (u ∷ ts) zero t c l = (l, c.1)
set-CwdsLive s (u ∷ ts) (suc i) t c l = (c.0, set-CwdsLive s ts i t c.1 l)

-- A new file system that keeps the nodes, and a task's entry that changes.
pub store-Safe :
    (k : Kernel) (s : Store) → Safe k → IsTree s → Keeps k.store s → Safe (record k { store = s })
store-Safe k s h t keeps = record { tree = t; cwds = keep_cwds k.store s k.tasks keeps h.cwds }

pub task-Safe :
    (k : Kernel) (me : ℕ) (t : Task)
    → Safe k
    → is_live (k.store.nodes t.cwd) ≡ true
    → Safe (put_task k me t)
unfolding put_task
task-Safe k me t h l = record { tree = h.tree; cwds = set-CwdsLive k.store k.tasks me t h.cwds l }

-- A process's directory does not lie under a node that `cwd_within` lets go.
cwd_outside :
    (s : Store) (ts : List Task) (n : ℕ)
    → IsTree s
    → CwdsLive s ts
    → cwd_within s ts n ≡ false
    → (s' : Store)
    → ((x : ℕ) → is_live (s.nodes x) ≡ true → ¬ Above s n x → is_live (s'.nodes x) ≡ true)
    → CwdsLive s' ts
unfolding cwd_within
cwd_outside s [] n tr c h s' keeps = tt
cwd_outside s (t ∷ ts) n tr (l, c) h s' keeps =
    let (b, r, iff) = is_ancestor_or_self-returns s n t.cwd tr l in
    (
      keeps t.cwd l (λ k. ground (arith, r, iff.1 k)),
      cwd_outside s ts n tr c (ground arith) s' keeps,
    )

remove_keeps :
    (s : Store) (cwd n x : ℕ) (found : Option ℕ)
    → IsTree s
    → found ≡ some n
    → is_live (s.nodes n) ≡ true
    → is_live (s.nodes x) ≡ true
    → ¬ Above s n x
    → is_live ((remove_at s cwd found).0.nodes x) ≡ true
remove_keeps s cwd n x found t e l lx other = elim (Bool-cases (remove_at s cwd found).1) [
  | inl done ↦ elim (Bool-cases (is_live ((remove_at s cwd found).0.nodes x))) [
    | inl there ↦ there
    | inr dead ↦ absurd (other ((removed_at s cwd n x found t done e l lx).0 dead))
  ]
  | inr failed ↦ ap (λ s'. is_live (s'.nodes x)) (remove_at-fails s cwd found failed) ∙ lx
]

-- Calls that go on only if something is there: the caller's task, a string, a node, a file.
pub on_some-Safe :
    {A : Type 0} (k : Kernel) (call : A → Kernel × Option ℕ) (o : Option A) (P : A → Type 0)
    → Safe k
    → Allows P o
    → ((a : A) → P a → Safe (call a).0)
    → Safe (on_some k call o).0
on_some-Safe k call none P h p f = h
on_some-Safe k call (some a) P h p f = f a p

pub tasks-live :
    (s : Store) (ts : List Task) (i : ℕ)
    → CwdsLive s ts
    → Allows (λ t. is_live (s.nodes t.cwd) ≡ true) (get_elem? ts i)
tasks-live s [] i c = tt
tasks-live s (t ∷ ts) zero c = c.0
tasks-live s (t ∷ ts) (suc i) c = tasks-live s ts i c.1

pub as_task-Safe :
    (k : Kernel) (me : ℕ) (call : Task → Kernel × Option ℕ)
    → Safe k
    → ((t : Task) → is_live (k.store.nodes t.cwd) ≡ true → Safe (call t).0)
    → Safe (as_task k me call).0
as_task-Safe k me call h f =
    on_some-Safe k call (get_elem? k.tasks me) (λ t. is_live (k.store.nodes t.cwd) ≡ true) h
      (tasks-live k.store k.tasks me h.cwds) f

pub with-Safe :
    {A : Type 0} (k : Kernel) (call : A → Kernel × Option ℕ) (o : Option A)
    → Safe k
    → ((a : A) → Safe (call a).0)
    → Safe (on_some k call o).0
with-Safe k call o h f = on_some-Safe k call o (λ a. Unit {0}) h (Allows-Unit o) (λ a u. f a)

pub mkdir-Safe : (u : User) (k : Kernel) (me path : ℕ) → Safe k → Safe (sys_mkdir u k me path).0
unfolding sys_mkdir mkdir
mkdir-Safe u k me path h = as_task-Safe k me _ h (λ t l. with-Safe k _ (user_str u path) h (λ p.
    store-Safe k (create_leaf k.store t.cwd p dir).0 h
      (create_leaf-IsTree k.store t.cwd p dir h.tree) (live-create_leaf k.store t.cwd p dir)))

pub rename-Safe :
    (u : User) (k : Kernel) (me src dest : ℕ) → Safe k → Safe (sys_rename u k me src dest).0
unfolding sys_rename
rename-Safe u k me src dest h = as_task-Safe k me _ h (λ t l. with-Safe k _ (user_str u src) h (λ a.
    with-Safe k _ (user_str u dest) h (λ b.
      store-Safe k (move_node k.store t.cwd a b).0 h (move_node-IsTree k.store t.cwd a b h.tree l)
        (live-move_node k.store t.cwd a b))))

enter-Safe :
    (k : Kernel) (me : ℕ) (t : Task) (n : ℕ)
    → Safe k
    → is_live (k.store.nodes n) ≡ true
    → Safe (enter k me t n).0
unfolding enter
enter-Safe k me t n h l = elim (Bool-cases (is_dir k.store n)) [
  | inl yes_dir ↦ rw yes_dir (task-Safe k me (record t { cwd = n }) h l)
  | inr no_dir ↦ rw no_dir h
]

pub chdir-Safe : (u : User) (k : Kernel) (me path : ℕ) → Safe k → Safe (sys_chdir u k me path).0
unfolding sys_chdir
chdir-Safe u k me path h = as_task-Safe k me _ h (λ t l. with-Safe k _ (user_str u path) h (λ p.
    on_some-Safe k (enter k me t) (resolve k.store t.cwd p) (λ n. is_live (k.store.nodes n) ≡ true)
      h (resolve-live k.store t.cwd p h.tree l) (λ n ln. enter-Safe k me t n h ln)))

unlink_path-Safe :
    (k : Kernel) (t : Task) (path : Bytes) (found : Option ℕ)
    → Safe k
    → is_live (k.store.nodes t.cwd) ≡ true
    → resolve k.store t.cwd path ≡ found
    → Safe (unlink_path k t path found).0
unfolding unlink_path rm
unlink_path-Safe k t path none h l e = h
unlink_path-Safe k t path (some n) h l e = elim (Bool-cases (cwd_within k.store k.tasks n)) [
  | inl within ↦ rw within h
  | inr outside ↦
      let found = resolve-live k.store t.cwd path h.tree l in
      let live = subst (Allows (λ m. is_live (k.store.nodes m) ≡ true)) e found in
      rw outside record {
        tree = (remove_at-Safe k.store t.cwd (resolve k.store t.cwd path) h.tree l found).0;
        cwds =
            cwd_outside k.store k.tasks n h.tree h.cwds outside
              (remove_at k.store t.cwd (resolve k.store t.cwd path)).0
              (λ x lx other.
                remove_keeps k.store t.cwd n x (resolve k.store t.cwd path) h.tree e live lx other);
      }
]

pub unlink-Safe : (u : User) (k : Kernel) (me path : ℕ) → Safe k → Safe (sys_unlink u k me path).0
unfolding sys_unlink
unlink-Safe u k me path h = as_task-Safe k me _ h (λ t l.
    with-Safe k _ (user_str u path) h
      (λ p. unlink_path-Safe k t p (resolve k.store t.cwd p) h l refl))
