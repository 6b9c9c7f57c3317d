-- ===== src/Syscall/Files.antt =====
-- kernel/src/exec/syscall.rs: the calls on paths. `none` is the result -1.
use anss_os.Common.{
  Bool, Bytes, List, Option, [], bit_and, false, get_elem?, if◌then◌else◌, ltb, none, not, some,
  true, ℕ, ◌&&◌, ◌+◌, ◌-◌, ◌==◌, ◌^◌, ◌||◌, ◌∷◌,
}
use anss_os.Vfs.Store.{Store, node, is_dir, update, is_ancestor_or_self}
use anss_os.Vfs.Paths.{resolve}
use anss_os.Vfs.Ops.{mkdir, create_file, remove as rm, move_node, copy, is_false}
use anss_os.Syscall.{
  OpenFile, unused, of_file, of_pipe, Task, Kernel, User, user_str, open_file, free_slot, put_task,
  put_file, drop_end,
}

abbrev pub o_creat : ℕ
o_creat = 0x40

abbrev pub o_trunc : ℕ
o_trunc = 0x200

-- The `?` of the calls: the answer is -1 where something is missing.
abbrev pub on_some {ℓ} :
    {A : Type ℓ} → Kernel → (A → Kernel × Option ℕ) → Option A → Kernel × Option ℕ
on_some k call none = (k, none)
on_some k call (some a) = call a

abbrev pub as_task : Kernel → ℕ → (Task → Kernel × Option ℕ) → Kernel × Option ℕ
as_task k me call = on_some k call (get_elem? k.tasks me)

abbrev pub with_path : User → Kernel → ℕ → (Bytes → Kernel × Option ℕ) → Kernel × Option ℕ
with_path u k ptr call = on_some k call (user_str u ptr)

abbrev pub ok : Bool → Option ℕ
ok true = some 0
ok false = none

-- The new file system after a call to it.
abbrev pub answer : Kernel → Store × Bool → Kernel × Option ℕ
answer k (s, done) = (record k { store = s }, ok done)

-- The node to open, which is created first when the flags ask for it.
unfoldable pub open_node : Store → ℕ → Bytes → ℕ → Option ℕ → Store × Option ℕ
open_node s cwd path flags (some n) = (s, some n)
open_node s cwd path flags none =
    let (s1, made) = create_file s cwd path in
    if bit_and flags o_creat == 0
    then (s, none)
    else if made
    then (s1, resolve s1 cwd path)
    else (s1, none)

unfoldable pub truncate : Store → ℕ → ℕ → ℕ → Store
truncate s n flags access =
    if not (bit_and flags o_trunc == 0) && (not (is_dir s n) && access == 1)
    then update s n (record (node s n) { content = [] })
    else s

unfoldable pub open_found : Kernel → ℕ → Task → ℕ → ℕ → Option ℕ → Kernel × Option ℕ
open_found k me t flags access none = (k, none)
open_found k me t flags access (some n) =
    let k1 = record k { store = truncate k.store n flags access } in
    if is_dir k.store n && not (flags == 0)
    then (k, none)
    else on_some k1 (λ i. (put_file k1 me t i (of_file n 0 (access == 1)), some (3 + i)))
        (free_slot t)

abbrev pub access_of : ℕ → ℕ
access_of flags = bit_and flags (2 ^ 64 - 1 - 0x240)

unfoldable pub open_path : Kernel → ℕ → Task → ℕ → Bytes → Kernel × Option ℕ
open_path k me t flags path =
    let (s1, found) = open_node k.store t.cwd path flags (resolve k.store t.cwd path) in
    if ltb 1 (access_of flags)
    then (k, none)
    else open_found (record k { store = s1 }) me t flags (access_of flags) found

unfoldable pub sys_open : User → Kernel → ℕ → ℕ → ℕ → Kernel × Option ℕ
sys_open u k me path flags = as_task k me (λ t. with_path u k path (open_path k me t flags))

unfoldable pub close_end : Kernel → OpenFile → Kernel
close_end k unused = k
close_end k (of_file n o w) = k
close_end k (of_pipe p write_end) = drop_end k p write_end

unfoldable pub sys_close : Kernel → ℕ → ℕ → Kernel × Option ℕ
sys_close k me fd =
    as_task k me (λ t.
      on_some k (λ f. (put_file (close_end k f) me t (fd - 3) unused, some 0)) (open_file t fd))

unfoldable pub enter : Kernel → ℕ → Task → ℕ → Kernel × Option ℕ
enter k me t n =
    if is_dir k.store n then (put_task k me (record t { cwd = n }), some 0) else (k, none)

unfoldable pub sys_chdir : User → Kernel → ℕ → ℕ → Kernel × Option ℕ
sys_chdir u k me path =
    as_task k me (λ t. with_path u k path (λ p. on_some k (enter k me t) (resolve k.store t.cwd p)))

unfoldable pub sys_mkdir : User → Kernel → ℕ → ℕ → Kernel × Option ℕ
sys_mkdir u k me path =
    as_task k me (λ t. with_path u k path (λ p. answer k (mkdir k.store t.cwd p)))

-- `process::cwd_within`: whether a process's directory is the node or lies under it.
unfoldable pub cwd_within : Store → List Task → ℕ → Bool
cwd_within s [] n = false
cwd_within s (t ∷ ts) n = not (is_false (is_ancestor_or_self s n t.cwd)) || cwd_within s ts n

unfoldable pub unlink_path : Kernel → Task → Bytes → Option ℕ → Kernel × Option ℕ
unlink_path k t path none = (k, none)
unlink_path k t path (some n) =
    if cwd_within k.store k.tasks n then (k, none) else answer k (rm k.store t.cwd path t.cwd)

unfoldable pub sys_unlink : User → Kernel → ℕ → ℕ → Kernel × Option ℕ
sys_unlink u k me path =
    as_task k me (λ t. with_path u k path (λ p. unlink_path k t p (resolve k.store t.cwd p)))

unfoldable pub sys_rename : User → Kernel → ℕ → ℕ → ℕ → Kernel × Option ℕ
sys_rename u k me src dest =
    as_task k me (λ t.
      with_path u k src (λ a. with_path u k dest (λ b. answer k (move_node k.store t.cwd a b))))

unfoldable pub sys_copy : User → Kernel → ℕ → ℕ → ℕ → Kernel × Option ℕ
sys_copy u k me src dest =
    as_task k me
      (λ t. with_path u k src (λ a. with_path u k dest (λ b. answer k (copy k.store t.cwd a b))))
