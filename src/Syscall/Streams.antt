-- ===== src/Syscall/Streams.antt =====
-- kernel/src/exec/syscall.rs: the calls on open files and pipes. `none` is the result -1.
use anss_os.Common.{
  Bool, Bytes, List, Option, [], bit_and, drop, false, get_elem?, if◌then◌else◌, is_empty, leb,
  length, ltb, min, none, not, replicate, set, some, take, true, ℕ, ◌&&◌, ◌++◌, ◌+◌, ◌-◌, ◌==◌,
  ◌>>=◌, ◌^◌, ◌||◌, ◌∷◌,
}
use anss_os.Pipe.{create, read, write}
use anss_os.Vfs.Store.{Vnode, node, is_dir, is_directory, update}
use anss_os.Syscall.{
  OpenFile, unused, of_file, of_pipe, Task, Kernel, User, user_ok, user_slice, open_file, free_from,
  free_slot, put_task, put_file, put_pipe,
}
use anss_os.Syscall.Files.{on_some, as_task}

-- An `i64` is its 64-bit pattern; offsets and sizes are below 2 ^ 63.
unfoldable pub checked_move : ℕ → ℕ → Option ℕ
checked_move base offset =
    if ltb offset (2 ^ 63)
    then (if ltb (base + offset) (2 ^ 63) then some (base + offset) else none)
    else if leb (2 ^ 64 - offset) base
    then some (base + offset - 2 ^ 64)
    else none

unfoldable pub seek_base : Vnode → ℕ → ℕ → Option ℕ
seek_base v pos whence =
    if whence == 0
    then some 0
    else if whence == 1
    then some pos
    else if whence == 2 && not (is_directory v.kind)
    then some (length v.content)
    else none

unfoldable pub seek_file : Kernel → ℕ → Task → ℕ → ℕ → ℕ → OpenFile → Kernel × Option ℕ
seek_file k me t i offset whence unused = (k, none)
seek_file k me t i offset whence (of_pipe p w) = (k, none)
seek_file k me t i offset whence (of_file n pos w) =
    on_some k (λ new. (put_file k me t i (of_file n new w), some new))
      (seek_base (node k.store n) pos whence >>= λ base. checked_move base offset)

-- A call on the open file behind a descriptor.
abbrev pub on_file : Kernel → ℕ → ℕ → (Task → OpenFile → Kernel × Option ℕ) → Kernel × Option ℕ
on_file k me fd call = as_task k me (λ t. on_some k (call t) (open_file t fd))

unfoldable pub sys_lseek : Kernel → ℕ → ℕ → ℕ → ℕ → Kernel × Option ℕ
sys_lseek k me fd offset whence = on_file k me fd (λ t f. seek_file k me t (fd - 3) offset whence f)

abbrev pub dirent_size : ℕ
dirent_size = 65

-- The type of the entry and its name, filled up with zeros.
unfoldable pub dirent : Vnode → Bytes
dirent v = (if is_directory v.kind then 4 else 8) ∷ v.name ++ replicate (64 - length v.name) 0

-- As `on_some`, for a call that writes to the caller's memory.
abbrev pub giving {ℓ} :
    {A B : Type ℓ}
    → Kernel
    → (A → (Kernel × Option ℕ) × List B)
    → Option A
    → (Kernel × Option ℕ) × List B
giving k call none = ((k, none), [])
giving k call (some a) = call a

-- What a call writes to the caller's memory stands beside its result.
unfoldable pub entry_or_end :
    Kernel → ℕ → Task → ℕ → ℕ → ℕ → Bool → Option ℕ → (Kernel × Option ℕ) × Bytes
entry_or_end k me t i n pos w none = ((k, some 0), [])
entry_or_end k me t i n pos w (some c) =
    ((put_file k me t i (of_file n (pos + 1) w), some 1), dirent (node k.store c))

unfoldable pub next_entry : Kernel → ℕ → Task → ℕ → ℕ → OpenFile → (Kernel × Option ℕ) × Bytes
next_entry k me t i out unused = ((k, none), [])
next_entry k me t i out (of_pipe p w) = ((k, none), [])
next_entry k me t i out (of_file n pos w) =
    if not (is_dir k.store n) || not (user_ok out dirent_size)
    then ((k, none), [])
    else entry_or_end k me t i n pos w (get_elem? (node k.store n).children pos)

-- As `on_file`, for a call that writes to the caller's memory.
abbrev pub from_file :
    Kernel → ℕ → ℕ → (Task → OpenFile → (Kernel × Option ℕ) × Bytes) → (Kernel × Option ℕ) × Bytes
from_file k me fd call = giving k (λ t. giving k (call t) (open_file t fd)) (get_elem? k.tasks me)

unfoldable pub sys_getdents : Kernel → ℕ → ℕ → ℕ → (Kernel × Option ℕ) × Bytes
sys_getdents k me fd out = from_file k me fd (λ t f. next_entry k me t (fd - 3) out f)

unfoldable pub write_pipe : Kernel → ℕ → Bytes → Kernel × Option ℕ
write_pipe k p src =
    on_some k (λ v. let (v1, n) = write v src in (put_pipe k p (some v1), n)) (k.pipes p)

-- `Vec::resize` to a longer length: `none` where it panics, for a length past `isize::MAX` or one for
-- which the heap has no room, which `grows` tells for each length.
unfoldable pub resized : (ℕ → Bool) → Bytes → ℕ → Option Bytes
resized grows content end =
    if ltb end (2 ^ 63) && grows end
    then some (content ++ replicate (end - length content) 0)
    else none

-- The content after a write at the offset; a gap before it is filled with zeros.
unfoldable pub written : (ℕ → Bool) → Bytes → ℕ → Bytes → Option Bytes
written grows content offset src =
    let end = offset + length src in
    (if ltb (length content) end then resized grows content end else some content) >>= λ grown.
    some (take offset grown ++ (src ++ drop end grown))

-- The result of a write is `none` where the kernel panics.
unfoldable pub write_open :
    (ℕ → Bool) → Kernel → ℕ → Task → ℕ → Bytes → OpenFile → Option (Kernel × Option ℕ)
write_open grows k me t i src unused = some (k, none)
write_open grows k me t i src (of_pipe p write_end) =
    some (if write_end then write_pipe k p src else (k, none))
write_open grows k me t i src (of_file n pos writable) =
    let v = node k.store n in
    let stored = written grows v.content pos src >>= λ bytes. some (
      put_file (record k { store = update k.store n (record v { content = bytes }) }) me t i
          (of_file n (pos + length src) writable),
      some (length src),
    ) in
    if writable then stored else some (k, none)

unfoldable pub to_stdout : Kernel → Bytes → Option ℕ → Kernel × Option ℕ
to_stdout k src none = (record k { console = k.console ++ src }, some (length src))
to_stdout k src (some p) = write_pipe k p src

unfoldable pub write_console : Kernel → ℕ → Bytes → Kernel × Option ℕ
write_console k me src = to_stdout k src (get_elem? k.tasks me >>= λ t. t.stdout_pipe)

-- As `on_some`, for a call that may panic.
abbrev pub or_fail {ℓ} :
    {A : Type ℓ} → Kernel → (A → Option (Kernel × Option ℕ)) → Option A → Option (Kernel × Option ℕ)
or_fail k call none = some (k, none)
or_fail k call (some a) = call a

unfoldable pub write_file_fd : (ℕ → Bool) → Kernel → ℕ → ℕ → Bytes → Option (Kernel × Option ℕ)
write_file_fd grows k me fd src =
    or_fail k (λ t. or_fail k (write_open grows k me t (fd - 3) src) (open_file t fd))
      (get_elem? k.tasks me)

unfoldable pub sys_write : (ℕ → Bool) → User → Kernel → ℕ → ℕ → ℕ → ℕ → Option (Kernel × Option ℕ)
sys_write grows u k me fd buf len =
    or_fail k
      (λ src.
        if fd == 1 || fd == 2
        then some (write_console k me src)
        else write_file_fd grows k me fd src)
      (user_slice u buf len)

unfoldable pub read_pipe : Kernel → ℕ → Bytes → (Kernel × Option ℕ) × Bytes
read_pipe k p out =
    giving k (λ v. let (v1, filled, n) = read v out in ((put_pipe k p (some v1), n), filled))
      (k.pipes p)

unfoldable pub read_open : Kernel → ℕ → Task → ℕ → Bytes → OpenFile → (Kernel × Option ℕ) × Bytes
read_open k me t i out unused = ((k, none), [])
read_open k me t i out (of_pipe p write_end) =
    if write_end then ((k, none), []) else read_pipe k p out
read_open k me t i out (of_file n pos w) =
    let rest = drop pos (node k.store n).content in
    let count = min (length out) (length rest) in
    if is_dir k.store n then ((k, none), []) else (
      (put_file k me t i (of_file n (pos + count) w), some count),
      take count rest ++ drop count out,
    )

-- The keys typed at the console: each poll gives a byte or nothing yet. What was typed and what the
-- console echoed; `none` while the call still waits.
unfoldable pub read_keys : Bool → ℕ → List (Option ℕ) → Bytes → Bytes → Option (Bytes × Bytes)
read_keys raw room [] typed echo = if leb room (length typed) then some (typed, echo) else none
read_keys raw room (none ∷ polls) typed echo =
    let rest = read_keys raw room polls typed echo in
    if leb room (length typed)
    then some (typed, echo)
    else if raw && not (is_empty typed)
    then some (typed, echo)
    else rest
read_keys raw room (some c ∷ polls) typed echo =
    let silent = read_keys raw room polls (typed ++ c ∷ []) echo in
    let stored = read_keys raw room polls (typed ++ c ∷ []) (echo ++ c ∷ []) in
    let ignored = read_keys raw room polls typed echo in
    let erased =
      read_keys raw room polls (take (length typed - 1) typed) (echo ++ 0x08 ∷ b' ' ∷ 0x08 ∷ []) in
    if leb room (length typed)
    then some (typed, echo)
    else if raw
    then silent
    else if c == b'\n' || c == b'\r'
    then some (typed, echo ++ b'\n' ∷ [])
    else if c == 0x08 || c == 0x7f
    then (if is_empty typed then ignored else erased)
    else stored

abbrev pub icanon : ℕ
icanon = 2

abbrev pub is_raw : Option Task → Bool
is_raw none = false
is_raw (some t) = bit_and t.c_lflag icanon == 0

-- Reading the console, in raw mode where the task has it set.
unfoldable pub read_console :
    Kernel → Option Task → List (Option ℕ) → Bytes → Option ((Kernel × Option ℕ) × Bytes)
read_console k t polls out = read_keys (is_raw t) (length out) polls [] [] >>= λ r.
    some ((record k { console = k.console ++ r.1 }, some (length r.0)), r.0)

unfoldable pub from_stdin :
    Kernel → Option Task → List (Option ℕ) → Bytes → Option ℕ → Option ((Kernel × Option ℕ) × Bytes)
from_stdin k t polls out none = read_console k t polls out
from_stdin k t polls out (some p) = some (read_pipe k p out)

unfoldable pub read_fd :
    List (Option ℕ) → Kernel → ℕ → ℕ → Option Bytes → Option ((Kernel × Option ℕ) × Bytes)
read_fd polls k me fd none = some ((k, none), [])
read_fd polls k me fd (some out) =
    if not (fd == 0)
    then some (from_file k me fd (λ t f. read_open k me t (fd - 3) out f))
    else from_stdin k (get_elem? k.tasks me) polls out (get_elem? k.tasks me >>= λ t. t.stdin_pipe)

-- `none` while the call still waits for a key.
unfoldable pub sys_read :
    User → List (Option ℕ) → Kernel → ℕ → ℕ → ℕ → ℕ → Option ((Kernel × Option ℕ) × Bytes)
sys_read u polls k me fd buf len = read_fd polls k me fd (user_slice u buf len)

-- Two free entries, the first two there are.
unfoldable pub two_free : Task → Option (ℕ × ℕ)
two_free t = free_slot t >>= λ r. free_from (drop (r + 1) t.open_files) (r + 1) >>= λ w. some (r, w)

unfoldable pub open_pipe : Kernel → ℕ → Task → ℕ × ℕ → (Kernel × Option ℕ) × List ℕ
open_pipe k me t (r, w) =
    let p = k.next_pipe in
    let k1 = record (put_pipe k p (some create)) { next_pipe = p + 1 } in
    let files = set (set t.open_files r (of_pipe p false)) w (of_pipe p true) in
    ((put_task k1 me (record t { open_files = files }), some 0), (3 + r) ∷ (3 + w) ∷ [])

-- The two numbers that sys_pipe stores at its argument stand beside its result.
unfoldable pub sys_pipe : Kernel → ℕ → ℕ → (Kernel × Option ℕ) × List ℕ
sys_pipe k me pipefd =
    giving k
      (λ t.
        if not (user_ok pipefd 8)
        then ((k, none), [])
        else giving k (open_pipe k me t) (two_free t))
      (get_elem? k.tasks me)

-- The pipes behind the two descriptors, if they are ends of the right kind.
abbrev pub read_end : OpenFile → Option ℕ
read_end unused = none
read_end (of_file n o w) = none
read_end (of_pipe p w) = if w then none else some p

abbrev pub write_end_of : OpenFile → Option ℕ
write_end_of unused = none
write_end_of (of_file n o w) = none
write_end_of (of_pipe p w) = if w then some p else none

unfoldable pub both_ends : Task → ℕ → ℕ → Option (ℕ × ℕ)
both_ends t stdin_fd stdout_fd = open_file t stdin_fd >>= λ f. open_file t stdout_fd >>= λ g.
    read_end f >>= λ input. write_end_of g >>= λ output. some (input, output)

unfoldable pub redirect : Kernel → ℕ → Task → ℕ → ℕ → ℕ × ℕ → Kernel × Option ℕ
redirect k me t stdin_fd stdout_fd (input, output) = (
  put_task k me (record t {
    stdin_pipe = some input;
    stdout_pipe = some output;
    open_files = set (set t.open_files (stdin_fd - 3) unused) (stdout_fd - 3) unused;
  }),
  some 0,
)

unfoldable pub sys_use_as_stdio : Kernel → ℕ → ℕ → ℕ → Kernel × Option ℕ
sys_use_as_stdio k me stdin_fd stdout_fd =
    as_task k me
      (λ t. on_some k (redirect k me t stdin_fd stdout_fd) (both_ends t stdin_fd stdout_fd))
