-- ===== src/Process/Turns.antt =====
-- kernel/src/exec/process.rs: the scheduler's round robin.
use anss_os.Common.{
  Bool-cases, List, Option, [], ap, arith, false, get_elem?, inl, inr, length, none, refl, set,
  some, subst, suc, sym, true, zero, ℕ, ◌%◌, ◌+◌, ◌-◌, ◌<◌, ◌∙◌, ◌∷◌, ◌≡◌, ◌≢◌, ◌≤◌, ◌⊎◌,
}
use native.Mathlib.Decide.{ℕ_discrete}
use anss_os.Vfs.Store.{has}
use anss_os.Process.{
  Process, Table, max_processes, put_slot, free_pending, slot_runnable, runnable_at, pick_from,
  pick_next_runnable, start, dispatch,
}

-- The search finds a slot no further than any that is runnable.
pick_from_lem :
    (rounds k d : ℕ) (t : Table)
    → k ≤ d
    → d < k + rounds
    → runnable_at t.processes ((t.last_picked + d) % max_processes) ≡ true
    → (e : ℕ) × (e ≤ d)
      × (k ≤ e)
      × (pick_from rounds k t ≡ some ((t.last_picked + e) % max_processes))
      × (runnable_at t.processes ((t.last_picked + e) % max_processes) ≡ true)
unfolding pick_from
pick_from_lem zero k d t ge lt r = absurd (omega arith)
pick_from_lem (suc rounds) k d t ge lt r =
    elim (Bool-cases (runnable_at t.processes ((t.last_picked + k) % max_processes))) [
      | inl here ↦ (k, ge, omega arith, rw here refl, here)
      | inr other ↦
          let further = differs k d t ge r other in
          let (e, le, ge', found, ready) =
            pick_from_lem rounds (k + 1) d t further (omega arith) r in
          (e, le, omega arith, rw other found, ready)
    ]
  where
    differs :
        (k d : ℕ) (t : Table)
        → k ≤ d
        → runnable_at t.processes ((t.last_picked + d) % max_processes) ≡ true
        → runnable_at t.processes ((t.last_picked + k) % max_processes) ≡ false
        → k + 1 ≤ d
    differs k d t ge r other = elim (ℕ_discrete k d) [
      | yes same ↦ absurd (
          ground (
            arith,
            subst (λ x. runnable_at t.processes ((t.last_picked + x) % max_processes) ≡ false) same
                other,
          ))
      | no apart ↦ omega arith
    ]

abbrev picked : Option (Table × ℕ) → List ℕ → List ℕ
picked none later = later
picked (some r) later = r.1 ∷ later

-- The slots that are picked one after the other; each of `events` is what happens from one pick to the
-- next.
unfoldable pub turns : List (Table → Table) → Table → List ℕ
turns [] t = []
turns (e ∷ events) t = picked (pick_next_runnable t) (turns events (e (dispatch t)))

-- The process in slot `j` waits for its turn, `d` slots after the last pick.
pub record Waits (j d : ℕ) (t : Table) : Type 0 where
  pub ready : runnable_at t.processes j ≡ true
  pub ahead : j ≡ (t.last_picked + d) % max_processes
  pub first : 1 ≤ d

-- What happens between two picks does not stop the process nor pick for itself.
abbrev pub Lets : ℕ → List (Table → Table) → Type 0
Lets j [] = Unit
Lets j (e ∷ events) = ((d : ℕ) (t : Table) → Waits j d t → Waits j d (e t)) × Lets j events

pub get_elem?-set_ne :
    (ps : List Process) (i j : ℕ) (p : Process) → i ≢ j → get_elem? (set ps i p) j ≡ get_elem? ps j
get_elem?-set_ne [] i j p h = refl
get_elem?-set_ne (q ∷ ps) zero zero p h = absurd (h refl)
get_elem?-set_ne (q ∷ ps) zero (suc j) p h = refl
get_elem?-set_ne (q ∷ ps) (suc i) zero p h = refl
get_elem?-set_ne (q ∷ ps) (suc i) (suc j) p h = get_elem?-set_ne ps i j p (λ e. h (ap suc e))

module _ (j d : ℕ) (t : Table) (w : Waits j d t) (near : d ≤ max_processes) where
  -- A pick comes to the waiting process, or comes nearer to it.
  pick_nearer :
      (i e : ℕ) × (pick_next_runnable t ≡ some (record t { last_picked = i }, i))
      × (runnable_at t.processes i ≡ true)
      × (1 ≤ e)
      × ((i ≡ j) ⊎ ((e < d) × Waits j (d - e) (record t { last_picked = i })))
  unfolding pick_next_runnable
  pick_nearer =
      let (e, le, ge, found, ready) =
        pick_from_lem max_processes 1 d t w.first (omega arith)
          (subst (λ x. runnable_at t.processes x ≡ true) w.ahead w.ready) in
      (
        (t.last_picked + e) % max_processes,
        e,
        rw found refl,
        ready,
        ge,
        (elim (ℕ_discrete e d) [
          | yes same ↦ inl (ap (λ x. (t.last_picked + x) % max_processes) same ∙ sym w.ahead)
          | no apart ↦ inr (
            omega arith,
            record { ready = w.ready; ahead = w.ahead ∙ omega arith; first = omega arith },
          )
        ]),
      )

-- The dispatch of another process.
start-Waits : (j d i : ℕ) (t : Table) (p : Process) → i ≢ j → Waits j d t → Waits j d (start t i p)
unfolding start put_slot free_pending
start-Waits j d i t p other w = record {
  ready =
      ap slot_runnable (
        get_elem?-set_ne (free_pending t i p).processes i j _ other
        ∙ get_elem?-set_ne t.processes i j _ other)
      ∙ w.ready;
  ahead = w.ahead;
  first = w.first;
}

dispatch-Waits :
    (j d i : ℕ) (t : Table) (o : Option Process)
    → i ≢ j
    → pick_next_runnable t ≡ some (record t { last_picked = i }, i)
    → runnable_at t.processes i ≡ true
    → get_elem? t.processes i ≡ o
    → Waits j d (record t { last_picked = i })
    → Waits j d (dispatch t)
unfolding dispatch
dispatch-Waits j d i t none other found ready e w = absurd (ground (arith, e))
dispatch-Waits j d i t (some p) other found ready e w =
    rw (found, e) (start-Waits j d i (record t { last_picked = i }) p other w)

-- A runnable process is picked within 16 turns, whatever the others do meanwhile: as long as what
-- happens between two picks leaves it runnable and leaves the place of the last pick alone, it is among
-- the first `d` picks, where `d` is how many slots after the last pick it stands.
pub turn_comes :
    (events : List (Table → Table)) (j d : ℕ) (t : Table)
    → Waits j d t
    → d ≤ max_processes
    → d ≤ length events
    → Lets j events
    → has j (turns events t) ≡ true
unfolding turns
turn_comes [] j d t w near enough lets = absurd (omega (arith, w.first))
turn_comes (f ∷ events) j d t w near enough lets =
    let (i, e, found, ready, ge, who) = pick_nearer j d t w near in
    let later = turns events (f (dispatch t)) in
    ap (λ o. has j (picked o later)) found ∙ elim (ℕ_discrete i j) [
      | yes same ↦ ground (arith, same)
      | no other ↦ elim who [
        | inl same ↦ absurd (other same)
        | inr (lt, nearer) ↦
            let w1 = lets.0 (d - e) (dispatch t) (
              dispatch-Waits j (d - e) i t (get_elem? t.processes i) other found ready refl
                nearer) in
            ground (
              arith,
              turn_comes events j (d - e) (f (dispatch t)) w1 (omega arith) (omega (arith, ge))
                  lets.1,
            )
      ]
    ]
