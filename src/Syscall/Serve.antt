-- ===== src/Syscall/Serve.antt =====
-- kernel/src/exec/syscall.rs: sequences of calls, by several processes.
use anss_os.Common.{
  Allows, Allows-Unit, Bool, Bool-cases, Bytes, List, Option, Option-cases, [], false, get_elem?,
  inl, inr, length, none, set, some, true, ℕ, ◌++◌, ◌+◌, ◌-◌, ◌==◌, ◌>>=◌, ◌||◌,
}
use anss_os.Pipe.{create}
use anss_os.Syscall.{
  OpenFile, of_pipe, Task, Kernel, User, user_ok, user_slice, open_file, put_pipe,
}
use anss_os.Syscall.Files.{sys_open, sys_close, sys_chdir, sys_mkdir, sys_unlink, sys_rename}
use anss_os.Syscall.Streams.{
  or_fail, write_file_fd, sys_lseek, sys_getdents, write_open, write_console, to_stdout, sys_write,
  read_console, read_keys, is_raw, from_stdin, read_fd, sys_read, open_pipe, sys_pipe, two_free,
  redirect, sys_use_as_stdio, both_ends,
}
use anss_os.Syscall.Safe.{
  Safe, as_task-Safe, with-Safe, task-Safe, tasks-live, mkdir-Safe, rename-Safe, chdir-Safe,
  unlink-Safe,
}
use anss_os.Syscall.Opened.{Live, open-Safe, close-Safe}
use anss_os.Syscall.Transfers.{
  FileLive, lseek-Safe, getdents-Safe, from_file-Safe, giving-Safe, write_pipe-Safe, read_pipe-Safe,
  write_open-Safe, read_open-Safe, after_write,
}

-- The file behind a descriptor, if there is one, is still in the store.
abbrev pub FdLive : Kernel → ℕ → ℕ → Type 0
FdLive k me fd = Allows (λ t. Allows (FileLive k.store) (open_file t fd)) (get_elem? k.tasks me)

write_fd-Safe :
    (grows : ℕ → Bool) (k : Kernel) (me fd : ℕ) (src : Bytes) (o : Option Task)
    → Safe k
    → Allows (λ t. Live k.store t.cwd) o
    → Allows (λ t. Allows (FileLive k.store) (open_file t fd)) o
    → Safe (
        after_write k
          (or_fail k (λ t. or_fail k (write_open grows k me t (fd - 3) src) (open_file t fd)) o))
write_fd-Safe grows k me fd src none h l lf = h
write_fd-Safe grows k me fd src (some t) h l lf = file (open_file t fd) lf
  where
    file :
        (g : Option OpenFile)
        → Allows (FileLive k.store) g
        → Safe (after_write k (or_fail k (write_open grows k me t (fd - 3) src) g))
    file none lv = h
    file (some f) lv = write_open-Safe grows k me t (fd - 3) src f h l lv

to_stdout-Safe : (k : Kernel) (src : Bytes) (o : Option ℕ) → Safe k → Safe (to_stdout k src o).0
unfolding to_stdout
to_stdout-Safe k src none h = record { tree = h.tree; cwds = h.cwds }
to_stdout-Safe k src (some p) h = write_pipe-Safe k p src h

write-Safe :
    (grows : ℕ → Bool) (u : User) (k : Kernel) (me fd buf len : ℕ)
    → Safe k
    → FdLive k me fd
    → Safe (after_write k (sys_write grows u k me fd buf len))
unfolding sys_write write_console write_file_fd
write-Safe grows u k me fd buf len h lf = elim (Option-cases (user_slice u buf len)) [
  | inl bad ↦ rw bad h
  | inr (src, e) ↦ rw e (elim (Bool-cases (fd == 1 || fd == 2)) [
    | inl console ↦
        rw console (to_stdout-Safe k src (get_elem? k.tasks me >>= λ t. t.stdout_pipe) h)
    | inr other ↦ rw other (
        write_fd-Safe grows k me fd src (get_elem? k.tasks me) h
          (tasks-live k.store k.tasks me h.cwds) lf)
  ])
]

-- What the kernel is after a call that may still wait.
abbrev pub after_read : Kernel → Option ((Kernel × Option ℕ) × Bytes) → Kernel
after_read k none = k
after_read k (some r) = r.0.0

keys-Safe :
    (k : Kernel) (o : Option (Bytes × Bytes))
    → Safe k
    → Safe (
        after_read k
          (o >>= λ r. some ((record k { console = k.console ++ r.1 }, some (length r.0)), r.0)))
keys-Safe k none h = h
keys-Safe k (some r) h = record { tree = h.tree; cwds = h.cwds }

from_stdin-Safe :
    (k : Kernel) (t : Option Task) (polls : List (Option ℕ)) (out : Bytes) (o : Option ℕ)
    → Safe k
    → Safe (after_read k (from_stdin k t polls out o))
unfolding from_stdin read_console
from_stdin-Safe k t polls out none h = keys-Safe k (read_keys (is_raw t) (length out) polls [] []) h
from_stdin-Safe k t polls out (some p) h = read_pipe-Safe k p out h

read_fd-Safe :
    (polls : List (Option ℕ)) (k : Kernel) (me fd : ℕ) (o : Option Bytes)
    → Safe k
    → Safe (after_read k (read_fd polls k me fd o))
unfolding read_fd
read_fd-Safe polls k me fd none h = h
read_fd-Safe polls k me fd (some out) h = elim (Bool-cases (fd == 0)) [
  | inl stdin ↦ rw stdin (
      from_stdin-Safe k (get_elem? k.tasks me) polls out
        (get_elem? k.tasks me >>= λ t. t.stdin_pipe) h)
  | inr other ↦
      rw other (from_file-Safe k me fd _ h (λ t l f. read_open-Safe k me t (fd - 3) out f h l))
]

open_pipe-Safe :
    (k : Kernel) (me : ℕ) (t : Task) (slots : ℕ × ℕ)
    → Safe k
    → Live k.store t.cwd
    → Safe (open_pipe k me t slots).0.0
unfolding open_pipe put_pipe
open_pipe-Safe k me t (r, w) h l =
    task-Safe (record (put_pipe k k.next_pipe (some create)) { next_pipe = k.next_pipe + 1 }) me
      (record t {
        open_files =
            set (set t.open_files r (of_pipe k.next_pipe false)) w (of_pipe k.next_pipe true);
      })
      (record { tree = h.tree; cwds = h.cwds }) l

pipe-Safe : (k : Kernel) (me pipefd : ℕ) → Safe k → Safe (sys_pipe k me pipefd).0.0
unfolding sys_pipe
pipe-Safe k me pipefd h =
    giving-Safe k (λ t. Live k.store t.cwd) _ (get_elem? k.tasks me) h
      (tasks-live k.store k.tasks me h.cwds)
      (λ t l. elim (Bool-cases (user_ok pipefd 8)) [
        | inl fine ↦ rw fine (
            giving-Safe k (λ s. Unit {0}) (open_pipe k me t) (two_free t) h
              (Allows-Unit (two_free t)) (λ s u. open_pipe-Safe k me t s h l))
        | inr bad ↦ rw bad h
      ])

stdio-Safe :
    (k : Kernel) (me stdin_fd stdout_fd : ℕ)
    → Safe k
    → Safe (sys_use_as_stdio k me stdin_fd stdout_fd).0
unfolding sys_use_as_stdio redirect
stdio-Safe k me stdin_fd stdout_fd h =
    as_task-Safe k me _ h
      (λ t l. with-Safe k _ (both_ends t stdin_fd stdout_fd) h (λ ends. task-Safe k me _ h l))

-- A call with its arguments.
pub data Call : Type 0 where
  open_call : (path flags : ℕ) → Call
  close : (fd : ℕ) → Call
  chdir : (path : ℕ) → Call
  mkdir : (path : ℕ) → Call
  unlink : (path : ℕ) → Call
  rename : (src dest : ℕ) → Call
  lseek : (fd offset whence : ℕ) → Call
  getdents : (fd out : ℕ) → Call
  write : (grows : ℕ → Bool) → (fd buf len : ℕ) → Call
  read : (polls : List (Option ℕ)) → (fd buf len : ℕ) → Call
  pipe : (pipefd : ℕ) → Call
  use_as_stdio : (stdin_fd stdout_fd : ℕ) → Call

unfoldable pub serve : User → Kernel → ℕ → Call → Kernel
serve u k me (open_call path flags) = (sys_open u k me path flags).0
serve u k me (close fd) = (sys_close k me fd).0
serve u k me (chdir path) = (sys_chdir u k me path).0
serve u k me (mkdir path) = (sys_mkdir u k me path).0
serve u k me (unlink path) = (sys_unlink u k me path).0
serve u k me (rename src dest) = (sys_rename u k me src dest).0
serve u k me (lseek fd offset whence) = (sys_lseek k me fd offset whence).0
serve u k me (getdents fd out) = (sys_getdents k me fd out).0.0
serve u k me (write grows fd buf len) = after_write k (sys_write grows u k me fd buf len)
serve u k me (read polls fd buf len) = after_read k (sys_read u polls k me fd buf len)
serve u k me (pipe pipefd) = (sys_pipe k me pipefd).0.0
serve u k me (use_as_stdio stdin_fd stdout_fd) = (sys_use_as_stdio k me stdin_fd stdout_fd).0

-- The call does not touch a file that was removed while it was open.
abbrev pub Defined : Kernel → ℕ → Call → Type 0
Defined k me (open_call path flags) = Unit
Defined k me (close fd) = Unit
Defined k me (chdir path) = Unit
Defined k me (mkdir path) = Unit
Defined k me (unlink path) = Unit
Defined k me (rename src dest) = Unit
Defined k me (lseek fd offset whence) = FdLive k me fd
Defined k me (getdents fd out) = FdLive k me fd
Defined k me (write grows fd buf len) = FdLive k me fd
Defined k me (read polls fd buf len) = FdLive k me fd
Defined k me (pipe pipefd) = Unit
Defined k me (use_as_stdio stdin_fd stdout_fd) = Unit

serve-Safe :
    (u : User) (k : Kernel) (me : ℕ) (c : Call) → Defined k me c → Safe k → Safe (serve u k me c)
unfolding serve sys_read
serve-Safe u k me (open_call path flags) d h = open-Safe u k me path flags h
serve-Safe u k me (close fd) d h = close-Safe k me fd h
serve-Safe u k me (chdir path) d h = chdir-Safe u k me path h
serve-Safe u k me (mkdir path) d h = mkdir-Safe u k me path h
serve-Safe u k me (unlink path) d h = unlink-Safe u k me path h
serve-Safe u k me (rename src dest) d h = rename-Safe u k me src dest h
serve-Safe u k me (lseek fd offset whence) d h = lseek-Safe k me fd offset whence h
serve-Safe u k me (getdents fd out) d h = getdents-Safe k me fd out h
serve-Safe u k me (write grows fd buf len) d h = write-Safe grows u k me fd buf len h d
serve-Safe u k me (read polls fd buf len) d h = read_fd-Safe polls k me fd (user_slice u buf len) h
serve-Safe u k me (pipe pipefd) d h = pipe-Safe k me pipefd h
serve-Safe u k me (use_as_stdio stdin_fd stdout_fd) d h = stdio-Safe k me stdin_fd stdout_fd h

-- Calls one after the other, each by some process with its own memory.
pub data Runs : Kernel → Kernel → Type 0 where
  stop : (k : Kernel) → Runs k k
  next :
      (u : User) (k k' : Kernel) (me : ℕ) (c : Call)
      → Defined k me c
      → Runs (serve u k me c) k'
      → Runs k k'

-- Processes make calls of open, close, chdir, mkdir, unlink, rename, lseek, getdents, write, read,
-- pipe and use_as_stdio, with whatever arguments and in whatever order, as long as none reads, writes,
-- lists or seeks in a file that was removed while it was open. From a state in which the file system
-- is a tree and every process's directory is one of its nodes, both still hold at the end: no call,
-- `unlink` by another process neither, frees a directory that a process stands in.
pub Runs-Safe : (k k' : Kernel) → Runs k k' → Safe k → Safe k'
Runs-Safe k k' (stop _) h = h
Runs-Safe k k' (next u _ _ me c d r) h = Runs-Safe (serve u k me c) k' r (serve-Safe u k me c d h)
