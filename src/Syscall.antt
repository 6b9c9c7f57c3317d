-- ===== src/Syscall.antt =====
-- kernel/src/exec/syscall.rs and kernel/src/exec/mod.rs: a process's open files, and how a call reaches them.
pub mod Files
pub mod Streams
pub mod Content
pub mod Safe
pub mod Opened
pub mod Transfers
pub mod Serve
mod Tests
use anss_os.Common.{
  ==_iff, Allows, Allows-Unit, Allows-bind, Bool, Bool-cases, Bytes, Ensures, Ensures-bind,
  Ensures-mono, Ensures-some, List, Option, Option-cases, [], add_u16, all_below, all_below_sound,
  any_below, any_below_sound, ap, append-nil, append_assoc, ap₂, arith, bit_and, bit_or, bit_xor,
  bool_eq, bool_eq→eq, bytes_eq, bytes_eq→eq, c_string, check, codes, contains_byte, dec_i32, drop,
  false, floor_char_boundary, floor_from, get_elem?, get_elem?-eq-none, get_or, get_or-set_ne,
  get_or-set_self, if◌then◌else◌, inc_i32, inl, inr, insert_at, is_char_boundary, is_empty,
  is_empty_of_ne, is_positive_i32, leb, leb→le, length, length-append, length-drop,
  length-insert_at, length-ne_zero, length-remove, length-replicate, length-set, length-take, ltb,
  ltb→lt, map, max, min, none, not, refl, replicate, rfind, rfind_from, saturating_add_u16,
  saturating_mul_u16, set, some, split_on, starts_char, strip_prefix, subst, suc, sym, take,
  take-append-drop, take-append_exact, trim_end, true, u16_max, zero, ℕ, ◌%◌, ◌&&◌, ◌*◌, ◌++◌, ◌+◌,
  ◌-◌, ◌/◌, ◌<◌, ◌==◌, ◌>>=◌, ◌^◌, ◌||◌, ◌↔◌, ◌∙◌, ◌∷◌, ◌≡◌, ◌≢◌, ◌≤◌, ◌⊎◌,
}
use anss_os.Vfs.Store.{Store}
use anss_os.Pipe.{Pipe, close_read, close_write}

pub data OpenFile : Type 0 where
  unused : OpenFile
  of_file : (vnode offset : ℕ) → (writable : Bool) → OpenFile
  of_pipe : (pipe : ℕ) → (write_end : Bool) → OpenFile

-- What the calls and the process table use of `struct Usertask`; `c_lflag` is a field of its `termios`.
pub record Task : Type 0 where
  pub kernel_stack_top : ℕ
  pub aspace : ℕ
  pub open_files : List OpenFile
  pub cwd : ℕ
  pub stdin_pipe : Option ℕ
  pub stdout_pipe : Option ℕ
  pub c_lflag : ℕ

-- What the calls share: the file system, the pipes by pointer, the tasks of the processes that are in
-- use, and what was printed.
pub record Kernel : Type 0 where
  pub store : Store
  pub pipes : ℕ → Option Pipe
  pub next_pipe : ℕ
  pub tasks : List Task
  pub console : Bytes

-- The caller's memory: `CStr::from_ptr(p).to_str().ok()`, and a slice of it.
pub record User : Type 0 where
  pub string : ℕ → Option Bytes
  pub bytes : ℕ → ℕ → Bytes

abbrev pub user_end : ℕ
user_end = 0x800000000000

unfoldable pub user_ok : ℕ → ℕ → Bool
user_ok ptr len = ltb ptr user_end && (ltb (ptr + len) (2 ^ 64) && ltb (ptr + len) user_end)

unfoldable pub user_slice : User → ℕ → ℕ → Option Bytes
user_slice u ptr len =
    if user_ok ptr len then some (if len == 0 then [] else u.bytes ptr len) else none

unfoldable pub user_str : User → ℕ → Option Bytes
user_str u ptr = if user_ok ptr 1 then u.string ptr else none

abbrev pub is_unused : OpenFile → Bool
is_unused unused = true
is_unused (of_file n o w) = false
is_unused (of_pipe p w) = false

unfoldable pub open_file : Task → ℕ → Option OpenFile
open_file t fd = (if ltb fd 3 then none else get_elem? t.open_files (fd - 3)) >>= λ f.
    if is_unused f then none else some f

unfoldable pub free_from : List OpenFile → ℕ → Option ℕ
free_from [] i = none
free_from (f ∷ fs) i = if is_unused f then some i else free_from fs (i + 1)

unfoldable pub free_slot : Task → Option ℕ
free_slot t = free_from t.open_files 0

unfoldable pub put_task : Kernel → ℕ → Task → Kernel
put_task k me t = record k { tasks = set k.tasks me t }

unfoldable pub put_file : Kernel → ℕ → Task → ℕ → OpenFile → Kernel
put_file k me t i f = put_task k me (record t { open_files = set t.open_files i f })

-- The pipe at a pointer. Where it was freed, the calls below give -1; the source's access is undefined.
unfoldable pub put_pipe : Kernel → ℕ → Option Pipe → Kernel
put_pipe k p v = record k { pipes = λ q. if q == p then v else k.pipes q }

unfoldable pub drop_end : Kernel → ℕ → Bool → Kernel
drop_end k p write_end =
    put_pipe k p (k.pipes p >>= (if write_end then close_write else close_read))
