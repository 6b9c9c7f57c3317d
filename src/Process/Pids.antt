-- ===== src/Process/Pids.antt =====
-- kernel/src/exec/process.rs: no two processes have the same pid.
use anss_os.Common.{
  List, Option, [], ap, arith, get_elem?, if◌then◌else◌, inl, inr, none, refl, set, some, subst,
  suc, sym, zero, ℕ, ◌+◌, ◌<◌, ◌>>=◌, ◌∙◌, ◌∷◌, ◌≡◌, ◌≢◌, ◌⊎◌,
}
use native.Mathlib.Decide.{ℕ_discrete}
use anss_os.Process.{Process, in_use}
use anss_os.Process.Turns.{get_elem?-set_ne}

-- The pid of a process that is in use.
abbrev pub pid_of : Process → Option ℕ
pid_of p = if in_use p then some p.pid else none

abbrev pub pid_at : List Process → ℕ → Option ℕ
pid_at ps i = get_elem? ps i >>= pid_of

-- No pid stands twice in the table, and the next one is greater than all of them.
pub record Fresh (ps : List Process) (next : ℕ) : Type 0 where
  pub unique : (i j pid : ℕ) → pid_at ps i ≡ some pid → pid_at ps j ≡ some pid → i ≡ j
  pub below : (i pid : ℕ) → pid_at ps i ≡ some pid → pid < next

pid_at-set_ne :
    (ps : List Process) (i j : ℕ) (q : Process) → i ≢ j → pid_at (set ps i q) j ≡ pid_at ps j
pid_at-set_ne ps i j q h = ap (λ o. o >>= pid_of) (get_elem?-set_ne ps i j q h)

pid_at-set :
    (ps : List Process) (i : ℕ) (q : Process)
    → (pid_at (set ps i q) i ≡ none) ⊎ (pid_at (set ps i q) i ≡ pid_of q)
pid_at-set [] i q = inl refl
pid_at-set (p ∷ ps) zero q = inr refl
pid_at-set (p ∷ ps) (suc i) q = pid_at-set ps i q

-- What stands in the table after a slot was set: what stood there before, or what was put there.
pid_after :
    (ps : List Process) (i j pid : ℕ) (q : Process)
    → pid_at (set ps i q) j ≡ some pid
    → ((i ≡ j) × (pid_of q ≡ some pid)) ⊎ ((i ≢ j) × (pid_at ps j ≡ some pid))
pid_after ps i j pid q h = elim (ℕ_discrete i j) [
  | yes same ↦
      inl (
        same,
        here (pid_at-set ps i q) (subst (λ x. pid_at (set ps i q) x ≡ some pid) (sym same) h),
      )
  | no other ↦ inr (other, sym (pid_at-set_ne ps i j q other) ∙ h)
]
  where
    here :
        (pid_at (set ps i q) i ≡ none) ⊎ (pid_at (set ps i q) i ≡ pid_of q)
        → pid_at (set ps i q) i ≡ some pid
        → pid_of q ≡ some pid
    here (inl e) k = absurd (ground (arith, sym e ∙ k))
    here (inr e) k = sym e ∙ k

-- A slot whose process keeps its pid, or gives it up.
pub set-Fresh :
    (ps : List Process) (next i : ℕ) (q : Process)
    → Fresh ps next
    → ((pid : ℕ) → pid_of q ≡ some pid → pid_at ps i ≡ some pid)
    → Fresh (set ps i q) next
set-Fresh ps next i q f keeps = record {
  unique = λ a b pid h k. f.unique a b pid (before a pid h) (before b pid k);
  below = λ a pid h. f.below a pid (before a pid h);
}
  where
    before : (a pid : ℕ) → pid_at (set ps i q) a ≡ some pid → pid_at ps a ≡ some pid
    before a pid h = elim (pid_after ps i a pid q h) [
      | inl (same, e) ↦ subst (λ x. pid_at ps x ≡ some pid) same (keeps pid e)
      | inr (other, e) ↦ e
    ]

-- A slot that gets a new process.
pub spawn_in-Fresh :
    (ps : List Process) (next i : ℕ) (q : Process)
    → Fresh ps next
    → pid_of q ≡ some next
    → Fresh (set ps i q) (next + 1)
spawn_in-Fresh ps next i q f new = record {
  unique = λ a b pid h k. both a b pid (pid_after ps i a pid q h) (pid_after ps i b pid q k);
  below = λ a pid h. bound a pid (pid_after ps i a pid q h);
}
  where
    the_next : (pid : ℕ) → pid_of q ≡ some pid → pid ≡ next
    the_next pid e = ground (arith, sym e ∙ new)

    bound :
        (a pid : ℕ)
        → ((i ≡ a) × (pid_of q ≡ some pid)) ⊎ ((i ≢ a) × (pid_at ps a ≡ some pid))
        → pid < next + 1
    bound a pid (inl (same, e)) = omega (arith, the_next pid e)
    bound a pid (inr (other, e)) = omega (arith, f.below a pid e)

    both :
        (a b pid : ℕ)
        → ((i ≡ a) × (pid_of q ≡ some pid)) ⊎ ((i ≢ a) × (pid_at ps a ≡ some pid))
        → ((i ≡ b) × (pid_of q ≡ some pid)) ⊎ ((i ≢ b) × (pid_at ps b ≡ some pid))
        → a ≡ b
    both a b pid (inl (s, e)) (inl (s', e')) = sym s ∙ s'
    both a b pid (inl (s, e)) (inr (o, e')) =
        absurd (omega (arith, the_next pid e, f.below b pid e'))
    both a b pid (inr (o, e)) (inl (s, e')) =
        absurd (omega (arith, the_next pid e', f.below a pid e))
    both a b pid (inr (o, e)) (inr (o', e')) = f.unique a b pid e e'
