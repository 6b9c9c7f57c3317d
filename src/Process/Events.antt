-- ===== src/Process/Events.antt =====
-- kernel/src/exec/process.rs: what happens to the table, and the pids in it.
use anss_os.Common.{
  Bool, Bool-cases, List, Option, Option-cases, [], ap, arith, false, get_elem?, get_elem?-set,
  if◌then◌else◌, inl, inr, length, none, refl, set, some, subst, suc, sym, true, zero, ℕ, ◌%◌, ◌+◌,
  ◌<◌, ◌>>=◌, ◌^◌, ◌∙◌, ◌∷◌, ◌≡◌, ◌≤◌,
}
use anss_os.Syscall.{Task}
use anss_os.Process.{
  vacant, zombie, Process, Table, in_use, is_zombie, alloc_slot, put_slot, new_process, spawn_in,
  spawn, exec, free_pending, reap, pick_from, pick_next_runnable, runnable_at, max_processes, start,
  dispatch,
}
use anss_os.Process.Pids.{pid_of, pid_at, Fresh, set-Fresh, spawn_in-Fresh}

-- What happens to the table: a process is launched, gets a new program, is picked, ends, is reaped.
pub data Event : Type 0 where
  launch : Option Task → ℕ → Event
  replace : ℕ → Option Task → Event
  turn : Event
  ends : ℕ → ℕ → Event
  collect : ℕ → Event

-- A change of the process in a slot.
abbrev at_slot : Table → (Process → Table) → Option Process → Table
at_slot t change none = t
at_slot t change (some p) = change p

unfoldable pub happens : Table → Event → Table
happens t (launch loaded parent) = (spawn t loaded parent).0
happens t (replace i loaded) =
    at_slot t (λ p. if in_use p then (exec t i p loaded).0 else t) (get_elem? t.processes i)
happens t turn = dispatch t
happens t (ends i status) =
    at_slot t
      (λ p.
        if in_use p then put_slot t i (record p { state = zombie; exit_status = status }) else t)
      (get_elem? t.processes i)
happens t (collect i) =
    at_slot t (λ p. if is_zombie p then reap t i p else t) (get_elem? t.processes i)

unfoldable pub happen : Table → List Event → Table
happen t [] = t
happen t (e ∷ es) = happen (happens t e) es

abbrev pub FreshTable : Table → Type 0
FreshTable t = Fresh t.processes t.next_pid

-- The pids are as before, but for those that are gone.
abbrev Keeps : Table → Table → Type 0
Keeps t t' = Fresh t'.processes t.next_pid × (t'.next_pid ≡ t.next_pid)

at_slot-Keeps :
    (t : Table) (change : Process → Table) (i : ℕ) (o : Option Process)
    → FreshTable t
    → get_elem? t.processes i ≡ o
    → ((p : Process) → get_elem? t.processes i ≡ some p → Keeps t (change p))
    → Keeps t (at_slot t change o)
at_slot-Keeps t change i none f e h = (f, refl)
at_slot-Keeps t change i (some p) f e h = h p e

if-Keeps :
    (t t' : Table) (b : Bool)
    → FreshTable t
    → (b ≡ true → Keeps t t')
    → Keeps t (if b then t' else t)
if-Keeps t t' true f h = h refl
if-Keeps t t' false f h = (f, refl)

-- A process with the pid of the one in the slot, or with none.
keep_pid :
    (ps : List Process) (i : ℕ) (p q : Process)
    → get_elem? ps i ≡ some p
    → ((pid : ℕ) → pid_of q ≡ some pid → pid_of p ≡ some pid)
    → (pid : ℕ) → pid_of q ≡ some pid
    → pid_at ps i ≡ some pid
keep_pid ps i p q e h pid k = ap (λ o. o >>= pid_of) e ∙ h pid k

same_pid-Fresh :
    (ps : List Process) (next i : ℕ) (p q : Process)
    → Fresh ps next
    → get_elem? ps i ≡ some p
    → q.pid ≡ p.pid
    → in_use p ≡ true
    → Fresh (set ps i q) next
same_pid-Fresh ps next i p q f e same u =
    set-Fresh ps next i q f (keep_pid ps i p q e (λ pid h. ground (arith, u, h, same)))

reap-Fresh :
    (t : Table) (i next : ℕ) (p : Process)
    → Fresh t.processes next
    → get_elem? t.processes i ≡ some p
    → Fresh (reap t i p).processes next
unfolding reap free_pending put_slot
reap-Fresh t i next p f e =
    let settled = record p { pending_free_as = none; pending_free_kstack = none } in
    set-Fresh (set t.processes i settled) next i (record settled { state = vacant })
      (set-Fresh t.processes next i settled f (keep_pid t.processes i p settled e (λ pid h. h)))
      (λ pid h. absurd (ground (arith, h)))

exec-Fresh :
    (t : Table) (i next : ℕ) (p : Process) (loaded : Option Task)
    → Fresh t.processes next
    → get_elem? t.processes i ≡ some p
    → in_use p ≡ true
    → Fresh (exec t i p loaded).0.processes next
unfolding exec put_slot
exec-Fresh t i next p none f e u = f
exec-Fresh t i next p (some task) f e u = same_pid-Fresh t.processes next i p _ f e refl u

start-Fresh :
    (t : Table) (i next : ℕ) (p : Process)
    → Fresh t.processes next
    → get_elem? t.processes i ≡ some p
    → in_use p ≡ true
    → Fresh (start t i p).processes next
unfolding start free_pending put_slot
start-Fresh t i next p f e u =
    let settled = record p { pending_free_as = none; pending_free_kstack = none } in
    same_pid-Fresh (set t.processes i settled) next i settled _
      (same_pid-Fresh t.processes next i p settled f e refl u)
      (get_elem?-set t.processes i p settled e) refl u

picked_runnable :
    (rounds k i : ℕ) (t : Table) → pick_from rounds k t ≡ some i → runnable_at t.processes i ≡ true
unfolding pick_from
picked_runnable zero k i t h = cc
picked_runnable (suc rounds) k i t h =
    elim (Bool-cases (runnable_at t.processes ((t.last_picked + k) % max_processes))) [
      | inl here ↦ ground (arith, here)
      | inr other ↦ picked_runnable rounds (k + 1) i t (ground (arith, other))
    ]

dispatch-Fresh : (t : Table) → FreshTable t → FreshTable (dispatch t)
unfolding dispatch pick_next_runnable start put_slot free_pending
dispatch-Fresh t f = elim (Option-cases (pick_from max_processes 1 t)) [
  | inl nobody ↦ rw nobody f
  | inr (i, found) ↦ elim (Option-cases (get_elem? t.processes i)) [
    | inl missing ↦ rw (found, missing) f
    | inr (p, e) ↦
        rw (found, e)
          (start-Fresh (record t { last_picked = i }) i t.next_pid p f e
            (ground (arith, picked_runnable max_processes 1 i t found, e)))
  ]
]

spawn-Fresh :
    (t : Table) (loaded : Option Task) (parent : ℕ)
    → t.next_pid + 1 < 2 ^ 31
    → FreshTable t
    → FreshTable (spawn t loaded parent).0 × ((spawn t loaded parent).0.next_pid ≤ t.next_pid + 1)
unfolding spawn spawn_in put_slot
spawn-Fresh t loaded parent small f = elim (Option-cases (alloc_slot t)) [
  | inl full ↦ rw full (f, omega arith)
  | inr (i, e) ↦ elim (Option-cases loaded) [
    | inl bad ↦ rw (e, bad) (f, omega arith)
    | inr (task, e') ↦
        rw (e, e')
          (
            subst (Fresh (set t.processes i (new_process t.next_pid parent task))) (omega arith) (
                spawn_in-Fresh t.processes t.next_pid i (new_process t.next_pid parent task) f
                  refl),
            omega arith,
          )
  ]
]

exec_next :
    (t : Table) (i : ℕ) (p : Process) (loaded : Option Task)
    → (exec t i p loaded).0.next_pid ≡ t.next_pid
unfolding exec put_slot
exec_next t i p none = refl
exec_next t i p (some task) = refl

reap_next : (t : Table) (i : ℕ) (p : Process) → (reap t i p).next_pid ≡ t.next_pid
unfolding reap free_pending put_slot
reap_next t i p = refl

ends-Keeps :
    (t : Table) (i status : ℕ) (p : Process)
    → FreshTable t
    → get_elem? t.processes i ≡ some p
    → in_use p ≡ true
    → Keeps t (put_slot t i (record p { state = zombie; exit_status = status }))
unfolding put_slot
ends-Keeps t i status p f e u = (
  same_pid-Fresh t.processes t.next_pid i p (record p { state = zombie; exit_status = status }) f e
      refl u,
  refl,
)

dispatch_next : (t : Table) → (dispatch t).next_pid ≡ t.next_pid
unfolding dispatch pick_next_runnable start put_slot free_pending
dispatch_next t = elim (Option-cases (pick_from max_processes 1 t)) [
  | inl nobody ↦ rw nobody refl
  | inr (i, found) ↦ elim (Option-cases (get_elem? t.processes i)) [
    | inl missing ↦ rw (found, missing) refl
    | inr (p, e) ↦ rw (found, e) refl
  ]
]

kept : (t t' : Table) → Keeps t t' → FreshTable t' × (t'.next_pid ≤ t.next_pid + 1)
kept t t' (f, e) = (subst (Fresh t'.processes) (sym e) f, omega arith)

happens-Fresh :
    (t : Table) (e : Event)
    → t.next_pid + 1 < 2 ^ 31
    → FreshTable t
    → FreshTable (happens t e) × ((happens t e).next_pid ≤ t.next_pid + 1)
unfolding happens
happens-Fresh t (launch loaded parent) small f = spawn-Fresh t loaded parent small f
happens-Fresh t (replace i loaded) small f = kept t (happens t (replace i loaded)) (
    at_slot-Keeps t _ i (get_elem? t.processes i) f refl (λ p e.
      if-Keeps t (exec t i p loaded).0 (in_use p) f
        (λ u. (exec-Fresh t i t.next_pid p loaded f e u, exec_next t i p loaded))))
happens-Fresh t turn small f = (dispatch-Fresh t f, omega (arith, dispatch_next t))
happens-Fresh t (ends i status) small f = kept t (happens t (ends i status)) (
    at_slot-Keeps t _ i (get_elem? t.processes i) f refl (λ p e.
      if-Keeps t (put_slot t i (record p { state = zombie; exit_status = status })) (in_use p) f
        (ends-Keeps t i status p f e)))
happens-Fresh t (collect i) small f = kept t (happens t (collect i)) (
    at_slot-Keeps t _ i (get_elem? t.processes i) f refl (λ p e.
      if-Keeps t (reap t i p) (is_zombie p) f
        (λ u. (reap-Fresh t i t.next_pid p f e, reap_next t i p))))

-- Whatever processes are launched, get new programs, are picked, end and are reaped, in whatever
-- order, as long as the pids stay below 2 ^ 31: if at first no two processes in use have the same pid
-- and the next pid is greater than all of theirs, so it is at the end.
pub happen-Fresh :
    (es : List Event) (t : Table)
    → t.next_pid + length es < 2 ^ 31
    → FreshTable t
    → FreshTable (happen t es)
unfolding happen
happen-Fresh [] t small f = f
happen-Fresh (e ∷ es) t small f =
    let (f1, le) = happens-Fresh t e (omega arith) f in
    happen-Fresh es (happens t e) (omega arith) f1
