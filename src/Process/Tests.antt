-- ===== src/Process/Tests.antt =====
-- kernel/src/exec/process.rs at concrete inputs.
use anss_os.Common.{List, [], arith, none, refl, replicate, some, suc, true, zero, ℕ, ◌∷◌, ◌≡◌, ◌≢◌}
use anss_os.Vfs.Store.{has}
use anss_os.Syscall.{unused, Task}
use anss_os.Process.{vacant, zombie, Process, Table, new_process, max_processes}
use anss_os.Process.Pids.{pid_at, Fresh}
use anss_os.Process.Events.{Event, launch, replace, turn, ends, collect, happen, happen-Fresh}
use anss_os.Process.Turns.{Waits, Lets, turns, turn_comes}

abbrev bare_task : Task
bare_task = record {
  kernel_stack_top = 0;
  aspace = 0;
  open_files = replicate 8 unused;
  cwd = 0;
  stdin_pipe = none;
  stdout_pipe = none;
  c_lflag = 2;
}

abbrev ready_process : ℕ → Process
ready_process pid = new_process pid 1 bare_task

abbrev free_process : Process
free_process = record (ready_process 0) { state = vacant }

-- Two processes that can run and one that has ended; the last pick was the first one's.
abbrev busy : Table
busy = record {
  processes =
      ready_process 1
      ∷ ready_process 2
      ∷ record (ready_process 3) { state = zombie }
      ∷ ready_process 4
      ∷ replicate 12 free_process;
  next_pid = 5;
  current = none;
  last_picked = 0;
  released = [];
}

abbrev quiet : List (Table → Table)
quiet = (λ t. t) ∷ (λ t. record t { current = none }) ∷ (λ t. t) ∷ []

quiet-Lets : Lets 3 quiet
quiet-Lets = (
  (λ d t w. w),
  ((λ d t w. record { ready = w.ready; ahead = w.ahead; first = w.first }), ((λ d t w. w), tt)),
)

busy-Waits : Waits 3 3 busy
busy-Waits = record { ready = refl; ahead = refl; first = omega arith }

turn_comes_example : has 3 (turns quiet busy) ≡ true
turn_comes_example = turn_comes quiet 3 3 busy busy-Waits (omega arith) (omega arith) quiet-Lets

abbrev empty_table : Table
empty_table = record {
  processes = replicate max_processes free_process;
  next_pid = 1;
  current = none;
  last_picked = 15;
  released = [];
}

no_pids : (n i pid : ℕ) → pid_at (replicate n free_process) i ≢ some pid
no_pids zero i pid h = cc
no_pids (suc n) zero pid h = cc
no_pids (suc n) (suc i) pid h = no_pids n i pid h

empty-Fresh : Fresh empty_table.processes 1
empty-Fresh = record {
  unique = λ i j pid h k. absurd (no_pids 16 i pid h);
  below = λ i pid h. absurd (no_pids 16 i pid h);
}

abbrev day : List Event
day =
    launch (some bare_task) 1
    ∷ launch (some bare_task) 1
    ∷ turn
    ∷ replace 0 (some bare_task)
    ∷ ends 0 7
    ∷ collect 0
    ∷ launch (some bare_task) 2
    ∷ []

happen-Fresh_example : Fresh (happen empty_table day).processes (happen empty_table day).next_pid
happen-Fresh_example = happen-Fresh day empty_table (omega arith) empty-Fresh
