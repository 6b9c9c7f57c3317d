-- ===== src/Syscall/Opened.antt =====
-- kernel/src/exec/syscall.rs: what the calls on open files keep.
use anss_os.Common.{
  Allows, Bool-cases, Bytes, Option, [], bit_and, inl, inr, ltb, none, not, set, some, true, ℕ,
  ◌&&◌, ◌-◌, ◌==◌, ◌≡◌,
}
use anss_os.Vfs.Store.{Store, file, node, is_dir}
use anss_os.Vfs.Paths.{resolve}
use anss_os.Vfs.Ops.{create_leaf, create_file}
use anss_os.Vfs.Forest.{is_live, IsTree}
use anss_os.Vfs.Create.{create_leaf-IsTree}
use anss_os.Vfs.Reached.{resolve-live}
use anss_os.Vfs.Write.{content-IsTree, live-update, live-create_leaf}
use anss_os.Pipe.{Pipe}
use anss_os.Syscall.{
  OpenFile, unused, of_file, of_pipe, Task, Kernel, User, user_str, open_file, free_slot, put_file,
  put_pipe, drop_end,
}
use anss_os.Syscall.Files.{
  open_node, truncate, open_found, open_path, access_of, sys_open, close_end, sys_close,
}
use anss_os.Syscall.Safe.{Safe, Keeps, as_task-Safe, with-Safe, store-Safe, task-Safe}

pub put_file-Safe :
    (k : Kernel) (me : ℕ) (t : Task) (i : ℕ) (f : OpenFile)
    → Safe k
    → is_live (k.store.nodes t.cwd) ≡ true
    → Safe (put_file k me t i f)
unfolding put_file
put_file-Safe k me t i f h l = task-Safe k me (record t { open_files = set t.open_files i f }) h l

abbrev pub Live : Store → ℕ → Type 0
Live s n = is_live (s.nodes n) ≡ true

open_node-Safe :
    (s : Store) (cwd : ℕ) (path : Bytes) (flags : ℕ) (o : Option ℕ)
    → IsTree s
    → Live s cwd
    → Allows (Live s) o
    → IsTree (open_node s cwd path flags o).0
      × Keeps s (open_node s cwd path flags o).0
      × Allows (Live (open_node s cwd path flags o).0) (open_node s cwd path flags o).1
unfolding open_node create_file
open_node-Safe s cwd path flags (some n) t l h = (t, (λ m lm. lm), h)
open_node-Safe s cwd path flags none t l h =
    let s1 = (create_leaf s cwd path file).0 in
    let t1 = create_leaf-IsTree s cwd path file t in
    let keeps = live-create_leaf s cwd path file in
    elim (Bool-cases (bit_and flags 0x40 == 0)) [
      | inl no_flag ↦ rw no_flag (t, (λ m lm. lm), tt)
      | inr creates ↦ elim (Bool-cases (create_leaf s cwd path file).1) [
        | inl made ↦ rw (creates, made) (t1, keeps, resolve-live s1 cwd path t1 (keeps cwd l))
        | inr failed ↦ rw (creates, failed) (t1, keeps, tt)
      ]
    ]

truncate-Safe :
    (s : Store) (n flags access : ℕ)
    → IsTree s
    → Live s n
    → IsTree (truncate s n flags access) × Keeps s (truncate s n flags access)
unfolding truncate
truncate-Safe s n flags access t l =
    elim (Bool-cases (not (bit_and flags 0x200 == 0) && (not (is_dir s n) && access == 1))) [
      | inl cut_off ↦ rw cut_off (
        content-IsTree s n [] t l,
        (λ m lm. live-update s n m (record (node s n) { content = [] }) lm),
      )
      | inr kept ↦ rw kept (t, (λ m lm. lm))
    ]

open_found-Safe :
    (k : Kernel) (me : ℕ) (t : Task) (flags access : ℕ) (o : Option ℕ)
    → Safe k
    → Live k.store t.cwd
    → Allows (Live k.store) o
    → Safe (open_found k me t flags access o).0
unfolding open_found
open_found-Safe k me t flags access none h l lo = h
open_found-Safe k me t flags access (some n) h l lo =
    let k1 = record k { store = truncate k.store n flags access } in
    let (tree, keeps) = truncate-Safe k.store n flags access h.tree lo in
    let h1 = store-Safe k k1.store h tree keeps in
    elim (Bool-cases (is_dir k.store n && not (flags == 0))) [
      | inl refused ↦ rw refused h
      | inr fine ↦ rw fine (
          with-Safe k1 _ (free_slot t) h1
            (λ i. put_file-Safe k1 me t i (of_file n 0 (access == 1)) h1 (keeps t.cwd l)))
    ]

pub open-Safe :
    (u : User) (k : Kernel) (me path flags : ℕ) → Safe k → Safe (sys_open u k me path flags).0
unfolding sys_open open_path
open-Safe u k me path flags h = as_task-Safe k me _ h (λ t l.
    with-Safe k _ (user_str u path) h (λ p.
      let found = resolve k.store t.cwd p in
      let (tree, keeps, live) =
        open_node-Safe k.store t.cwd p flags found h.tree l
          (resolve-live k.store t.cwd p h.tree l) in
      let s1 = (open_node k.store t.cwd p flags found).0 in
      elim (Bool-cases (ltb 1 (access_of flags))) [
        | inl refused ↦ rw refused h
        | inr fine ↦ rw fine (
            open_found-Safe (record k { store = s1 }) me t flags (access_of flags) _
              (store-Safe k s1 h tree keeps) (keeps t.cwd l) live)
      ]))

-- A change of the pipes alone.
pub put_pipe-Safe : (k : Kernel) (p : ℕ) (v : Option Pipe) → Safe k → Safe (put_pipe k p v)
unfolding put_pipe
put_pipe-Safe k p v h = record { tree = h.tree; cwds = h.cwds }

close_end-Safe :
    (k : Kernel) (me : ℕ) (t : Task) (i : ℕ) (f : OpenFile)
    → Safe k
    → Live k.store t.cwd
    → Safe (put_file (close_end k f) me t i unused)
unfolding close_end drop_end put_pipe
close_end-Safe k me t i unused h l = put_file-Safe k me t i unused h l
close_end-Safe k me t i (of_file n o w) h l = put_file-Safe k me t i unused h l
close_end-Safe k me t i (of_pipe p w) h l =
    put_file-Safe (drop_end k p w) me t i unused (record { tree = h.tree; cwds = h.cwds }) l

pub close-Safe : (k : Kernel) (me fd : ℕ) → Safe k → Safe (sys_close k me fd).0
unfolding sys_close
close-Safe k me fd h =
    as_task-Safe k me _ h
      (λ t l. with-Safe k _ (open_file t fd) h (λ f. close_end-Safe k me t (fd - 3) f h l))
