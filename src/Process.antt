-- ===== src/Process.antt =====
-- kernel/src/exec/process.rs: the process table and the scheduler.
pub mod Turns
pub mod Pids
pub mod Events
mod Tests
use anss_os.Common.{
  ==_iff, Allows, Allows-Unit, Allows-bind, Bool, Bool-cases, Bytes, Ensures, Ensures-bind,
  Ensures-mono, Ensures-some, List, Option, Option-cases, [], add_u16, all_below, all_below_sound,
  any_below, any_below_sound, ap, append-nil, append_assoc, ap₂, arith, bit_and, bit_or, bit_xor,
  bool_eq, bool_eq→eq, bytes_eq, bytes_eq→eq, c_string, check, codes, contains_byte, dec_i32, drop,
  drop-all, drop-append_exact, false, floor_char_boundary, floor_from, get_elem?, get_elem?-eq-none,
  get_elem?-set, get_or, get_or-set_ne, get_or-set_self, if◌then◌else◌, inc_i32, inl, inr,
  insert_at, is_char_boundary, is_empty, is_empty_of_ne, is_positive_i32, leb, leb→le, length,
  length-append, length-drop, length-insert_at, length-ne_zero, length-remove, length-replicate,
  length-set, length-take, ltb, ltb→lt, map, max, min, none, not, refl, remove, replicate, rfind,
  rfind_from, saturating_add_u16, saturating_mul_u16, set, some, split_on, starts_char,
  strip_prefix, subst, suc, sym, take, take-append-drop, take-append_exact, trim_end, true, u16_max,
  zero, ℕ, ◌%◌, ◌&&◌, ◌*◌, ◌++◌, ◌+◌, ◌-◌, ◌/◌, ◌<◌, ◌==◌, ◌>>=◌, ◌^◌, ◌||◌, ◌↔◌, ◌∙◌, ◌∷◌, ◌≡◌,
  ◌≢◌, ◌≤◌, ◌⊎◌,
}
use anss_os.Syscall.{OpenFile, unused, Task}

abbrev pub max_processes : ℕ
max_processes = 16

pub data State : Type 0 where
  vacant runnable running zombie : State

-- A pid and an exit status are `i32`s, as their bit patterns.
pub record Process : Type 0 where
  pub pid : ℕ
  pub parent_pid : ℕ
  pub state : State
  pub exit_status : ℕ
  pub has_run : Bool
  pub saved_rsp : ℕ
  pub task : Task
  pub pending_free_as : Option ℕ
  pub pending_free_kstack : Option ℕ

-- `released` is what the scheduler gave back to the page allocator: address spaces and kernel stacks.
pub record Table : Type 0 where
  pub processes : List Process
  pub next_pid : ℕ
  pub current : Option ℕ
  pub last_picked : ℕ
  pub released : List ℕ

abbrev pub in_use : Process → Bool
in_use p = elim p.state [ vacant ↦ false | runnable ↦ true | running ↦ true | zombie ↦ true ]

abbrev pub is_runnable : Process → Bool
is_runnable p = elim p.state [ vacant ↦ false | runnable ↦ true | running ↦ false | zombie ↦ false ]

abbrev pub is_zombie : Process → Bool
is_zombie p = elim p.state [ vacant ↦ false | runnable ↦ false | running ↦ false | zombie ↦ true ]

-- `iter().position`
unfoldable pub position : (Process → Bool) → List Process → Option ℕ
position test [] = none
position test (p ∷ ps) = if test p then some 0 else (position test ps >>= λ i. some (i + 1))

abbrev pub has_pid : ℕ → Process → Bool
has_pid pid p = in_use p && p.pid == pid

-- The slot of the process.
unfoldable pub by_pid : Table → ℕ → Option ℕ
by_pid t pid = position (has_pid pid) t.processes

abbrev pub is_child : ℕ → Process → Bool
is_child parent p = in_use p && p.parent_pid == parent

unfoldable pub or_else : Option ℕ → Option ℕ → Option ℕ
or_else none o = o
or_else (some i) o = some i

unfoldable pub find_child : Table → ℕ → Option ℕ → Option ℕ
find_child t parent (some pid) = by_pid t pid >>= λ i.
    get_elem? t.processes i >>= λ p. if p.parent_pid == parent then some i else none
find_child t parent none =
    or_else (position (λ p. is_child parent p && is_zombie p) t.processes)
      (position (is_child parent) t.processes)

unfoldable pub alloc_slot : Table → Option ℕ
alloc_slot t = position (λ p. not (in_use p)) t.processes

unfoldable pub put_slot : Table → ℕ → Process → Table
put_slot t i p = record t { processes = set t.processes i p }

abbrev pub new_process : ℕ → ℕ → Task → Process
new_process pid parent_pid task = record {
  pid = pid;
  parent_pid = parent_pid;
  state = runnable;
  exit_status = 0;
  has_run = false;
  saved_rsp = 0;
  task = task;
  pending_free_as = none;
  pending_free_kstack = none;
}

-- A new process in the slot, with the pid that `next_pid` gives.
unfoldable pub spawn_in : Table → ℕ → Task → ℕ → Table × Option ℕ
spawn_in t parent_pid task i = (
  put_slot (record t { next_pid = inc_i32 t.next_pid }) i (new_process t.next_pid parent_pid task),
  some t.next_pid,
)

abbrev pub spawned : Table → Option (Table × Option ℕ) → Table × Option ℕ
spawned t none = (t, none)
spawned t (some r) = r

-- `loaded` is what the ELF loader gives for the image.
unfoldable pub spawn : Table → Option Task → ℕ → Table × Option ℕ
spawn t loaded parent_pid =
    spawned t (alloc_slot t >>= λ i. loaded >>= λ task. some (spawn_in t parent_pid task i))

-- The new program of the process in slot `i`: what belongs to the process and not to the program stays.
unfoldable pub exec : Table → ℕ → Process → Option Task → Table × Bool
exec t i p none = (t, false)
exec t i p (some loaded) =
    let old = p.task in
    let task = record loaded {
      open_files = old.open_files;
      cwd = old.cwd;
      c_lflag = old.c_lflag;
      stdin_pipe = old.stdin_pipe;
      stdout_pipe = old.stdout_pipe;
    } in
    (
      put_slot t i (record p {
        task = task;
        pending_free_as = some old.aspace;
        pending_free_kstack = some old.kernel_stack_top;
        has_run = false;
        state = runnable;
      }),
      true,
    )

abbrev pub to_list : Option ℕ → List ℕ
to_list none = []
to_list (some n) = n ∷ []

unfoldable pub free_pending : Table → ℕ → Process → Table
free_pending t i p =
    put_slot
      (record t {
        released = t.released ++ to_list p.pending_free_as ++ to_list p.pending_free_kstack;
      })
      i (record p { pending_free_as = none; pending_free_kstack = none })

unfoldable pub reap : Table → ℕ → Process → Table
reap t i p =
    let t1 = free_pending t i p in
    put_slot (record t1 { released = t1.released ++ p.task.aspace ∷ p.task.kernel_stack_top ∷ [] })
      i (record p { pending_free_as = none; pending_free_kstack = none; state = vacant })

abbrev pub slot_runnable : Option Process → Bool
slot_runnable none = false
slot_runnable (some p) = is_runnable p

abbrev pub runnable_at : List Process → ℕ → Bool
runnable_at ps i = slot_runnable (get_elem? ps i)

-- The search of `pick_next_runnable`, from the `k`th slot after the last pick on.
unfoldable pub pick_from : ℕ → ℕ → Table → Option ℕ
pick_from zero k t = none
pick_from (suc rounds) k t =
    let i = (t.last_picked + k) % max_processes in
    let rest = pick_from rounds (k + 1) t in if runnable_at t.processes i then some i else rest

unfoldable pub pick_next_runnable : Table → Option (Table × ℕ)
pick_next_runnable t = pick_from max_processes 1 t >>= λ i. some (record t { last_picked = i }, i)

-- The process is dispatched.
unfoldable pub start : Table → ℕ → Process → Table
start t i p =
    record (put_slot (free_pending t i p) i (record p {
      pending_free_as = none;
      pending_free_kstack = none;
      state = running;
      has_run = true;
    })) { current = some i }

-- The pass over the table when nobody in particular is waited for: zombies are reaped. Whether a
-- process is still alive stands beside it.
unfoldable pub reap_all : ℕ → List Process → Table → Table × Bool
reap_all i [] t = (t, false)
reap_all i (p ∷ ps) t =
    let next = reap_all (i + 1) ps (if is_zombie p then reap t i p else t) in
    (next.0, (in_use p && not (is_zombie p)) || next.1)

-- What the loop finds at its top: a result, or the table to go on with.
unfoldable pub check_pid : Table → ℕ → Option (ℕ × Process) → Table × Option ℕ
check_pid t pid none = (t, some (2 ^ 32 - 1))
check_pid t pid (some (i, p)) = if is_zombie p then (reap t i p, some p.exit_status) else (t, none)

unfoldable pub check_top : Option ℕ → Table → Table × Option ℕ
check_top (some pid) t =
    check_pid t pid (by_pid t pid >>= λ i. get_elem? t.processes i >>= λ p. some (i, p))
check_top none t =
    let (t1, alive) = reap_all 0 t.processes t in (t1, if alive then none else some 0)

abbrev pub table_or : Table → Option Table → Table
table_or t none = t
table_or t (some t1) = t1

-- The dispatch of the process that is picked; without one the table stays as it is.
unfoldable pub dispatch : Table → Table
dispatch t =
    table_or t
      (pick_next_runnable t >>= λ r. get_elem? r.0.processes r.1 >>= λ p. some (start r.0 r.1 p))

-- The loop ends if there is a result.
abbrev pub settle : Table × Option ℕ → Option (Table × ℕ) → Option (Table × ℕ)
settle (t, none) rest = rest
settle (t, some r) rest = some (t, r)

-- The loop of `run_until`. Each of `events` is what happens until the kernel is back in the loop: the
-- process that was dispatched runs, or an interrupt comes. `none` while the loop still goes on.
unfoldable pub run_loop : Option ℕ → List (Table → Table) → Table → Option (Table × ℕ)
run_loop wait [] t = settle (check_top wait t) none
run_loop wait (e ∷ events) t =
    settle (check_top wait t) (run_loop wait events (e (dispatch (check_top wait t).0)))

-- The processor's own pointer to the kernel stack, which the end of the loop restores, is left out.
unfoldable pub run_until : Option ℕ → List (Table → Table) → Table → Option (Table × ℕ)
run_until wait events t =
    run_loop wait events t >>= λ r. some (record r.0 { current = t.current }, r.1)
