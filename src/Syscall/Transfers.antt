-- ===== src/Syscall/Transfers.antt =====
-- kernel/src/exec/syscall.rs: what reading, writing and seeking keep.
use anss_os.Common.{
  Allows, Allows-Unit, Bool, Bool-cases, Bytes, List, Option, Option-cases, false, get_elem?, inl,
  inr, length, none, not, some, true, ℕ, ◌+◌, ◌-◌, ◌>>=◌, ◌||◌,
}
use anss_os.Pipe.{read, write}
use anss_os.Vfs.Store.{Store, Vnode, node, is_dir, update}
use anss_os.Vfs.Write.{content-IsTree, live-update}
use anss_os.Syscall.{OpenFile, unused, of_file, of_pipe, Task, Kernel, user_ok, open_file}
use anss_os.Syscall.Streams.{
  seek_base, checked_move, seek_file, sys_lseek, next_entry, giving, entry_or_end, from_file,
  sys_getdents, write_pipe, written, write_open, read_pipe, read_open, dirent_size,
}
use anss_os.Syscall.Safe.{Safe, as_task-Safe, with-Safe, store-Safe, tasks-live}
use anss_os.Syscall.Opened.{Live, put_file-Safe, put_pipe-Safe}

-- The file behind the descriptor was not freed.
abbrev pub FileLive : Store → OpenFile → Type 0
FileLive s unused = Unit
FileLive s (of_file n o w) = Live s n
FileLive s (of_pipe p w) = Unit

seek-Safe :
    (k : Kernel) (me : ℕ) (t : Task) (i offset whence : ℕ) (f : OpenFile)
    → Safe k
    → Live k.store t.cwd
    → Safe (seek_file k me t i offset whence f).0
unfolding seek_file
seek-Safe k me t i offset whence unused h l = h
seek-Safe k me t i offset whence (of_pipe p w) h l = h
seek-Safe k me t i offset whence (of_file n pos w) h l =
    with-Safe k _ (seek_base (node k.store n) pos whence >>= λ base. checked_move base offset) h
      (λ new. put_file-Safe k me t i (of_file n new w) h l)

pub lseek-Safe :
    (k : Kernel) (me fd offset whence : ℕ) → Safe k → Safe (sys_lseek k me fd offset whence).0
unfolding sys_lseek
lseek-Safe k me fd offset whence h =
    as_task-Safe k me _ h
      (λ t l. with-Safe k _ (open_file t fd) h (λ f. seek-Safe k me t (fd - 3) offset whence f h l))

-- Calls that give bytes to the caller as well.
pub giving-Safe :
    {A B : Type 0} (k : Kernel) (P : A → Type 0) (call : A → (Kernel × Option ℕ) × List B)
    (o : Option A)
    → Safe k
    → Allows P o
    → ((a : A) → P a → Safe (call a).0.0)
    → Safe (giving k call o).0.0
giving-Safe k P call none h p f = h
giving-Safe k P call (some a) h p f = f a p

pub from_file-Safe :
    (k : Kernel) (me fd : ℕ) (call : Task → OpenFile → (Kernel × Option ℕ) × Bytes)
    → Safe k
    → ((t : Task) → Live k.store t.cwd → (f : OpenFile) → Safe (call t f).0.0)
    → Safe (from_file k me fd call).0.0
from_file-Safe k me fd call h f =
    giving-Safe k (λ t. Live k.store t.cwd) _ (get_elem? k.tasks me) h
      (tasks-live k.store k.tasks me h.cwds)
      (λ t l.
        giving-Safe k (λ g. Unit {0}) (call t) (open_file t fd) h (Allows-Unit (open_file t fd))
          (λ g u. f t l g))

entry-Safe :
    (k : Kernel) (me : ℕ) (t : Task) (i out : ℕ) (f : OpenFile)
    → Safe k
    → Live k.store t.cwd
    → Safe (next_entry k me t i out f).0.0
unfolding next_entry entry_or_end
entry-Safe k me t i out unused h l = h
entry-Safe k me t i out (of_pipe p w) h l = h
entry-Safe k me t i out (of_file n pos w) h l =
    elim (Bool-cases (not (is_dir k.store n) || not (user_ok out dirent_size))) [
      | inl refused ↦ rw refused h
      | inr fine ↦ elim (Option-cases (get_elem? (node k.store n).children pos)) [
        | inl at_end ↦ rw (fine, at_end) h
        | inr (c, e) ↦ rw (fine, e) (put_file-Safe k me t i (of_file n (pos + 1) w) h l)
      ]
    ]

pub getdents-Safe : (k : Kernel) (me fd out : ℕ) → Safe k → Safe (sys_getdents k me fd out).0.0
unfolding sys_getdents
getdents-Safe k me fd out h =
    from_file-Safe k me fd _ h (λ t l f. entry-Safe k me t (fd - 3) out f h l)

pub write_pipe-Safe : (k : Kernel) (p : ℕ) (src : Bytes) → Safe k → Safe (write_pipe k p src).0
unfolding write_pipe
write_pipe-Safe k p src h =
    with-Safe k _ (k.pipes p) h (λ v. put_pipe-Safe k p (some (write v src).0) h)

pub read_pipe-Safe : (k : Kernel) (p : ℕ) (out : Bytes) → Safe k → Safe (read_pipe k p out).0.0
unfolding read_pipe
read_pipe-Safe k p out h =
    giving-Safe k (λ v. Unit {0}) _ (k.pipes p) h (Allows-Unit (k.pipes p))
      (λ v u. put_pipe-Safe k p (some (read v out).0) h)

-- What the kernel is after a write; where the write panics, the kernel halts in the state it had.
abbrev pub after_write : Kernel → Option (Kernel × Option ℕ) → Kernel
after_write k none = k
after_write k (some r) = r.0

pub write_open-Safe :
    (grows : ℕ → Bool) (k : Kernel) (me : ℕ) (t : Task) (i : ℕ) (src : Bytes) (f : OpenFile)
    → Safe k
    → Live k.store t.cwd
    → FileLive k.store f
    → Safe (after_write k (write_open grows k me t i src f))
unfolding write_open
write_open-Safe grows k me t i src unused h l lf = h
write_open-Safe grows k me t i src (of_pipe p true) h l lf = write_pipe-Safe k p src h
write_open-Safe grows k me t i src (of_pipe p false) h l lf = h
write_open-Safe grows k me t i src (of_file n pos false) h l lf = h
write_open-Safe grows k me t i src (of_file n pos true) h l lf =
    elim (Option-cases (written grows (node k.store n).content pos src)) [
      | inl panics ↦ rw panics h
      | inr (bytes, e) ↦ rw e (
          put_file-Safe (record k { store = update k.store n (with_bytes bytes) }) me t i
            (of_file n (pos + length src) true)
            (store-Safe k (update k.store n (with_bytes bytes)) h
              (content-IsTree k.store n bytes h.tree lf)
              (λ m lm. live-update k.store n m (with_bytes bytes) lm))
            (live-update k.store n t.cwd (with_bytes bytes) l))
    ]
  where
    with_bytes : Bytes → Vnode
    with_bytes bytes = record (node k.store n) { content = bytes }

pub read_open-Safe :
    (k : Kernel) (me : ℕ) (t : Task) (i : ℕ) (out : Bytes) (f : OpenFile)
    → Safe k
    → Live k.store t.cwd
    → Safe (read_open k me t i out f).0.0
unfolding read_open
read_open-Safe k me t i out unused h l = h
read_open-Safe k me t i out (of_pipe p true) h l = h
read_open-Safe k me t i out (of_pipe p false) h l = read_pipe-Safe k p out h
read_open-Safe k me t i out (of_file n pos w) h l = elim (Bool-cases (is_dir k.store n)) [
  | inl directory ↦ rw directory h
  | inr plain ↦ rw plain (put_file-Safe k me t i (of_file n _ w) h l)
]
