-- ===== src/Syscall/Content.antt =====
-- kernel/src/exec/syscall.rs: what is written to a file is read back.
use anss_os.Common.{
  Bool, Bool-cases, Bytes, Option, [], ap, append-nil, arith, drop, drop-all, drop-append_exact,
  false, get_elem?, get_elem?-set, if◌then◌else◌, inl, inr, length, length-append, length-replicate,
  length-take, ltb, min, none, refl, replicate, set, some, take, take-append_exact, true, ℕ, ◌++◌,
  ◌+◌, ◌-◌, ◌<◌, ◌==◌, ◌>>=◌, ◌^◌, ◌||◌, ◌∙◌, ◌≡◌, ◌≤◌,
}
use anss_os.Vfs.Store.{Store, node, is_dir, update}
use anss_os.Vfs.Forest.{node-put_node}
use anss_os.Syscall.{
  OpenFile, unused, of_file, of_pipe, is_unused, Task, Kernel, User, user_slice, open_file,
  put_task, put_file,
}
use anss_os.Syscall.Streams.{
  on_file, from_file, seek_base, checked_move, seek_file, sys_lseek, written, write_open, sys_write,
  read_open, read_fd, sys_read, resized, or_fail, write_file_fd,
}

length-grown : (c : Bytes) (end : ℕ) → end ≤ length (c ++ replicate (end - length c) 0)
length-grown c end = ground (
  arith,
  length-append c (replicate (end - length c) 0),
  length-replicate {A = ℕ} (end - length c) 0,
)

-- A write that the heap has room for succeeds, and at its offset stands what was written.
abbrev Stands : ℕ → Bytes → Option Bytes → Type 0
Stands pos src r =
    (bytes : Bytes) × (r ≡ some bytes) × (rest : Bytes) × (drop pos bytes ≡ src ++ rest)

replaced :
    (grown : Bytes) (pos : ℕ) (src : Bytes)
    → pos + length src ≤ length grown
    → Stands pos src (some (take pos grown ++ (src ++ drop (pos + length src) grown)))
replaced grown pos src fits = (
  take pos grown ++ (src ++ drop (pos + length src) grown),
  refl,
  drop (pos + length src) grown,
  drop-append_exact pos (take pos grown) (src ++ drop (pos + length src) grown)
      (omega (arith, length-take pos grown)),
)

drop-written :
    (grows : ℕ → Bool) (c : Bytes) (pos : ℕ) (src : Bytes)
    → pos + length src < 2 ^ 63
    → grows (pos + length src) ≡ true
    → Stands pos src (written grows c pos src)
unfolding written resized
drop-written grows c pos src small room = elim (Bool-cases (ltb (length c) (pos + length src))) [
  | inl shorter ↦
      rw (shorter, below, room)
        (replaced (c ++ replicate (pos + length src - length c) 0) pos src
          (length-grown c (pos + length src)))
  | inr longer ↦ rw longer (replaced c pos src (ground (arith, longer)))
]
  where
    below : ltb (pos + length src) (2 ^ 63) ≡ true
    below = ground arith

open_file-slot :
    (t : Task) (fd : ℕ) (f : OpenFile)
    → open_file t fd ≡ some f
    → (ltb fd 3 ≡ false) × (get_elem? t.open_files (fd - 3) ≡ some f)
unfolding open_file
open_file-slot t fd f h = elim (Bool-cases (ltb fd 3)) [
  | inl low ↦ absurd (ground (arith, low))
  | inr high ↦ (high, used_slot (get_elem? t.open_files (fd - 3)) (ground (arith, high)))
]
  where
    used_slot :
        (o : Option OpenFile)
        → (o >>= λ g. if is_unused g then none else some g) ≡ some f
        → o ≡ some f
    used_slot none h = cc
    used_slot (some unused) h = cc
    used_slot (some (of_file n o w)) h = h
    used_slot (some (of_pipe p w)) h = h

-- The entry of the descriptor, after it was set.
abbrev with_file : Task → ℕ → OpenFile → Task
with_file t fd f = record t { open_files = set t.open_files (fd - 3) f }

module _ (k : Kernel) (me : ℕ) (t : Task) (fd : ℕ) (f f' : OpenFile)
    (is_task : get_elem? k.tasks me ≡ some t) (is_file : open_file t fd ≡ some f)
    (used : is_unused f' ≡ false) where
  put_file-task : get_elem? (put_file k me t (fd - 3) f').tasks me ≡ some (with_file t fd f')
  unfolding put_file put_task
  put_file-task = get_elem?-set k.tasks me t (with_file t fd f') is_task

  put_file-file : open_file (with_file t fd f') fd ≡ some f'
  unfolding open_file
  put_file-file =
      let (high, slot) = open_file-slot t fd f is_file in
      rw (high, get_elem?-set t.open_files (fd - 3) f f' slot, used) refl

on_file_lem :
    (k : Kernel) (me : ℕ) (t : Task) (fd : ℕ) (f : OpenFile)
    (call : Task → OpenFile → Kernel × Option ℕ)
    → get_elem? k.tasks me ≡ some t
    → open_file t fd ≡ some f
    → on_file k me fd call ≡ call t f
on_file_lem k me t fd f call e h = rw (e, h) refl

from_file_lem :
    (k : Kernel) (me : ℕ) (t : Task) (fd : ℕ) (f : OpenFile)
    (call : Task → OpenFile → (Kernel × Option ℕ) × Bytes)
    → get_elem? k.tasks me ≡ some t
    → open_file t fd ≡ some f
    → from_file k me fd call ≡ call t f
from_file_lem k me t fd f call e h = rw (e, h) refl

-- Reading as many bytes as begin the rest of the file.
read_open_lem :
    (k : Kernel) (me : ℕ) (t : Task) (i n pos : ℕ) (w : Bool) (room src rest : Bytes)
    → is_dir k.store n ≡ false
    → drop pos (node k.store n).content ≡ src ++ rest
    → length room ≡ length src
    → read_open k me t i room (of_file n pos w)
      ≡ ((put_file k me t i (of_file n (pos + length src) w), some (length src)), src)
unfolding read_open
read_open_lem k me t i n pos w room src rest plain e fits =
    rw (plain, e, count, take-append_exact (length src) src rest refl, gone, append-nil src) refl
  where
    count : min (length room) (length (src ++ rest)) ≡ length src
    count = omega (arith, length-append src rest)

    gone : drop (length src) room ≡ []
    gone = drop-all (length src) room (omega arith)

or_fail_lem :
    {A : Type 0} (k : Kernel) (call : A → Option (Kernel × Option ℕ)) (o : Option A) (a : A)
    → o ≡ some a
    → or_fail k call o ≡ call a
or_fail_lem k call o a e = rw e refl

module _ (grows : ℕ → Bool) (u : User) (k : Kernel) (me fd buf out len : ℕ) (t : Task) (n pos : ℕ)
    (src room bytes rest : Bytes) (is_task : get_elem? k.tasks me ≡ some t)
    (is_file : open_file t fd ≡ some (of_file n pos true)) (plain : is_dir k.store n ≡ false)
    (small : pos < 2 ^ 63) (from : user_slice u buf len ≡ some src)
    (to : user_slice u out len ≡ some room) (fits : length room ≡ length src)
    (stores : written grows (node k.store n).content pos src ≡ some bytes)
    (begins : drop pos bytes ≡ src ++ rest) where
  abbrev stored : Store
  stored = update k.store n (record (node k.store n) { content = bytes })

  abbrev k1 : Kernel
  k1 = put_file (record k { store = stored }) me t (fd - 3) (of_file n (pos + length src) true)

  abbrev t1 : Task
  t1 = with_file t fd (of_file n (pos + length src) true)

  abbrev k2 : Kernel
  k2 = put_file k1 me t1 (fd - 3) (of_file n pos true)

  abbrev t2 : Task
  t2 = with_file t1 fd (of_file n pos true)

  high : ltb fd 3 ≡ false
  high = (open_file-slot t fd (of_file n pos true) is_file).0

  write_lem : sys_write grows u k me fd buf len ≡ some (k1, some (length src))
  unfolding sys_write write_file_fd write_open
  write_lem = rw (from, bool_or, is_task, is_file, stores) refl
    where
      bool_or : (fd == 1 || fd == 2) ≡ false
      bool_or = ground (arith, high)

  task1 : get_elem? k1.tasks me ≡ some t1
  task1 =
      put_file-task (record k { store = stored }) me t fd (of_file n pos true)
        (of_file n (pos + length src) true) is_task is_file refl

  file1 : open_file t1 fd ≡ some (of_file n (pos + length src) true)
  file1 =
      put_file-file k me t fd (of_file n pos true) (of_file n (pos + length src) true) is_task
        is_file refl

  task2 : get_elem? k2.tasks me ≡ some t2
  task2 =
      put_file-task k1 me t1 fd (of_file n (pos + length src) true) (of_file n pos true) task1 file1
        refl

  file2 : open_file t2 fd ≡ some (of_file n pos true)
  file2 =
      put_file-file k1 me t1 fd (of_file n (pos + length src) true) (of_file n pos true) task1 file1
        refl

  seek_lem : sys_lseek k1 me fd pos 0 ≡ (k2, some pos)
  unfolding sys_lseek seek_file seek_base checked_move
  seek_lem =
      on_file_lem k1 me t1 fd (of_file n (pos + length src) true)
        (λ t f. seek_file k1 me t (fd - 3) pos 0 f) task1 file1
      ∙ rw move_lem refl
    where
      move_lem : checked_move 0 pos ≡ some pos
      move_lem = ground arith

  stored_node : node k2.store n ≡ record (node k.store n) { content = bytes }
  unfolding put_file put_task
  stored_node =
      ground (arith, node-put_node k.store n n (some (record (node k.store n) { content = bytes })))

  read_lem : (k' : Kernel) × (sys_read u [] k2 me fd out len ≡ some ((k', some (length src)), src))
  unfolding sys_read read_fd read_open
  read_lem =
      let k3 = put_file k2 me t2 (fd - 3) (of_file n (pos + length src) true) in
      (
        k3,
        rw (to, not_stdin)
            (ap some (
              from_file_lem k2 me t2 fd (of_file n pos true)
                (λ t f. read_open k2 me t (fd - 3) room f) task2 file2
              ∙ read_open_lem k2 me t2 (fd - 3) n pos true room src rest
                  (ground (arith, stored_node, plain))
                  (ap (λ v. drop pos v.content) stored_node ∙ begins) fits)),
      )
    where
      not_stdin : (fd == 0) ≡ false
      not_stdin = ground (arith, high)

-- A process writes to a plain file that it has open for writing, where the write ends below 2 ^ 63
-- and the heap has room for a file of that length. The write gives the number of bytes; and when the
-- process goes back to where it began with `lseek` and reads as many bytes, it reads what it wrote,
-- whatever the file held and also where the write began behind the file's end.
pub write_then_read :
    (grows : ℕ → Bool) (u : User) (k : Kernel) (me fd buf out len : ℕ) (t : Task) (n pos : ℕ)
    (src room : Bytes)
    → get_elem? k.tasks me ≡ some t
    → open_file t fd ≡ some (of_file n pos true)
    → is_dir k.store n ≡ false
    → pos + length src < 2 ^ 63
    → grows (pos + length src) ≡ true
    → user_slice u buf len ≡ some src
    → user_slice u out len ≡ some room
    → length room ≡ length src
    → (k1 k2 : Kernel) × (sys_write grows u k me fd buf len ≡ some (k1, some (length src)))
      × (sys_read u [] (sys_lseek k1 me fd pos 0).0 me fd out len
          ≡ some ((k2, some (length src)), src))
write_then_read grows u k me fd buf out len t n pos src room a b c small heap e f g =
    let (bytes, stores, rest, begins) =
      drop-written grows (node k.store n).content pos src small heap in
    let below : pos < 2 ^ 63 = omega arith in
    let (k2, reads) =
      read_lem grows u k me fd buf out len t n pos src room bytes rest a b c below e f g stores
        begins in
    (
      k1 grows u k me fd buf out len t n pos src room bytes rest a b c below e f g stores begins,
      k2,
      write_lem grows u k me fd buf out len t n pos src room bytes rest a b c below e f g stores
          begins,
      rw
          (seek_lem grows u k me fd buf out len t n pos src room bytes rest a b c below e f g stores
            begins)
          reads,
    )
