-- ===== src/Syscall/Tests.antt =====
-- kernel/src/exec/syscall.rs at concrete inputs.
use anss_os.Common.{
  Bool, List, [], arith, bytes_eq, codes, false, floor_char_boundary, floor_from, if◌then◌else◌,
  is_char_boundary, ltb, none, refl, replicate, rfind, rfind_from, some, split_on, trim_end, true,
  ℕ, ◌==◌, ◌∷◌, ◌≡◌,
}
use anss_os.Vfs.Store.{dir, node, is_dir, put_node, cut, alloc_vnode, link_child, init}
use anss_os.Vfs.Paths.{
  find_among, find_child, step_into, resolve_loop, resolve, split_leaf, resolve_parent_and_leaf,
}
use anss_os.Vfs.Ops.{
  create_at, create_leaf, create_file, write_at, write_found, write_bytes, write_file, kept_content,
}
use anss_os.Vfs.Run.{Op, make, step, run, run-IsTree}
use anss_os.Vfs.Run as Run
use anss_os.Syscall.{
  unused, of_file, Task, Kernel, User, user_ok, user_str, user_slice, open_file, free_from,
  free_slot, put_task, put_file,
}
use anss_os.Syscall.Files.{open_node, truncate, open_found, open_path, sys_open}
use anss_os.Syscall.Streams.{sys_lseek, sys_write, sys_read}
use anss_os.Syscall.Safe.{Safe}
use anss_os.Syscall.Serve.{open_call, write, unlink, serve, FdLive, Runs, stop, next, Runs-Safe}
use anss_os.Syscall.Content.{write_then_read}

abbrev steps : List Op
steps = make (codes "a") dir ∷ Run.write (codes "a/f") (codes "hi") false ∷ []

-- Two processes, one in "/" and one in "/a".
abbrev task_in : ℕ → Task
task_in n = record {
  kernel_stack_top = 0;
  aspace = 0;
  open_files = replicate 8 unused;
  cwd = n;
  stdin_pipe = none;
  stdout_pipe = none;
  c_lflag = 2;
}

abbrev desk : Kernel
desk = record {
  store = run init 0 steps;
  pipes = λ p. none;
  next_pipe = 1;
  tasks = task_in 0 ∷ task_in 1 ∷ [];
  console = [];
}

abbrev memory : User
memory = record {
  string = λ p. if p == 16 then some (codes "a/f") else some (codes "/a");
  bytes = λ p n. replicate n p;
}

desk-Safe : Safe desk
unfolding run step create_leaf create_at create_file find_child find_among step_into resolve_loop
    resolve split_leaf resolve_parent_and_leaf node put_node cut alloc_vnode link_child init
    write_file write_bytes write_found write_at kept_content bytes_eq split_on trim_end rfind
    rfind_from floor_char_boundary floor_from is_char_boundary
desk-Safe = record { tree = run-IsTree steps; cwds = (refl, (refl, tt)) }

-- The first process has "/a/f" open for writing.
abbrev opened : Kernel
opened = serve memory desk 0 (open_call 16 1)

-- The heap has room for files of up to a million bytes.
abbrev roomy : ℕ → Bool
roomy n = ltb n 1000000

fd_live : FdLive opened 0 3
unfolding serve sys_open open_path open_node open_found truncate free_slot free_from put_file
    put_task open_file user_str user_ok run step create_leaf create_at create_file find_child
    find_among step_into resolve_loop resolve split_leaf resolve_parent_and_leaf node put_node cut
    alloc_vnode link_child init write_file write_bytes write_found write_at kept_content bytes_eq
    split_on trim_end rfind rfind_from floor_char_boundary floor_from is_char_boundary
fd_live = refl

-- It writes, and then tries to remove the other's directory.
abbrev wrote : Kernel
wrote = serve memory opened 0 (write roomy 3 32 4)

history : Runs desk (serve memory wrote 0 (unlink 48))
history = next memory desk _ 0 (open_call 16 1) tt (
    next memory opened _ 0 (write roomy 3 32 4) fd_live
      (next memory wrote _ 0 (unlink 48) tt (stop (serve memory wrote 0 (unlink 48)))))

Runs-Safe_example : Safe (serve memory wrote 0 (unlink 48))
Runs-Safe_example = Runs-Safe desk (serve memory wrote 0 (unlink 48)) history desk-Safe

abbrev writer : Task
writer = record {
  kernel_stack_top = 0;
  aspace = 0;
  open_files = of_file 2 1 true ∷ [];
  cwd = 0;
  stdin_pipe = none;
  stdout_pipe = none;
  c_lflag = 2;
}

abbrev writing : Kernel
writing = record desk { tasks = writer ∷ [] }

f_plain : is_dir writing.store 2 ≡ false
unfolding run step create_leaf create_at create_file find_child find_among step_into resolve_loop
    resolve split_leaf resolve_parent_and_leaf node put_node cut alloc_vnode link_child init
    write_file write_bytes write_found write_at kept_content bytes_eq split_on trim_end rfind
    rfind_from floor_char_boundary floor_from is_char_boundary
f_plain = refl

slice : user_slice memory 32 2 ≡ some (32 ∷ 32 ∷ [])
unfolding user_slice user_ok
slice = refl

writer_file : open_file writer 3 ≡ some (of_file 2 1 true)
unfolding open_file
writer_file = refl

write_then_read_example :
    (k1 k2 : Kernel) × (sys_write roomy memory writing 0 3 32 2 ≡ some (k1, some 2))
    × (sys_read memory [] (sys_lseek k1 0 3 1 0).0 0 3 32 2 ≡ some ((k2, some 2), 32 ∷ 32 ∷ []))
write_then_read_example =
    write_then_read roomy memory writing 0 3 32 32 2 writer 2 1 (32 ∷ 32 ∷ []) (32 ∷ 32 ∷ []) refl
      writer_file f_plain (omega arith) refl slice slice refl
