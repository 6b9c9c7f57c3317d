-- ===== src/Vfs/Depth.antt =====
-- kernel/src/fs/vfs.rs: how long the walks up to the root can be.
use anss_os.Common.{
  Allows, Bool, Bool-cases, List, Option, Option-cases, [], ap, arith, inl, inr, length, none, refl,
  some, subst, suc, sym, true, zero, ℕ, ◌+◌, ◌<◌, ◌↔◌, ◌∙◌, ◌∷◌, ◌≡◌, ◌≤◌,
}
use native.Mathlib.Decide.{ℕ_discrete}
use anss_os.Vfs.Store.{Store, has, without, climb, is_ancestor_or_self}
use anss_os.Vfs.Forest.{parent_of, is_live, NoRepeat, Climbs, top, off, up, Forest, IsTree}
use anss_os.Vfs.Linking.{dir-is_live}
use anss_os.Vfs.Loose.{has-without, without-NoRepeat}

length-without : (c : ℕ) (xs : List ℕ) → length xs ≤ length (without c xs) + 1
unfolding without
length-without c [] = ground arith
length-without c (x ∷ xs) = ground (arith, length-without c xs)

-- A list of different numbers below `k` has at most `k` of them.
pub pigeonhole :
    (k : ℕ) (xs : List ℕ) → NoRepeat xs → ((x : ℕ) → has x xs ≡ true → x < k) → length xs ≤ k
pigeonhole zero [] u h = ground arith
pigeonhole zero (x ∷ xs) u h = ground (arith, h x)
pigeonhole (suc k) xs u h =
    let fewer =
      pigeonhole k (without k xs) (without-NoRepeat k xs u)
        (λ x e. ground (arith, h x, has-without x k xs u)) in
    ground (arith, length-without k xs)

-- The walk up has exactly `k` nodes.
abbrev pub Walk : Store → ℕ → Option ℕ → Type 0
Walk s zero none = Unit
Walk s zero (some n) = ⊥
Walk s (suc k) none = ⊥
Walk s (suc k) (some n) = Walk s k (parent_of s n)

abbrev pub chain : Store → ℕ → Option ℕ → List ℕ
chain s k none = []
chain s zero (some n) = []
chain s (suc k) (some n) = n ∷ chain s k (parent_of s n)

pub Walk-unique : (s : Store) (a b : ℕ) (o : Option ℕ) → Walk s a o → Walk s b o → a ≡ b
Walk-unique s zero zero o g h = refl
Walk-unique s zero (suc b) none g h = absurd h
Walk-unique s zero (suc b) (some n) g h = absurd g
Walk-unique s (suc a) zero none g h = absurd g
Walk-unique s (suc a) zero (some n) g h = absurd h
Walk-unique s (suc a) (suc b) none g h = absurd g
Walk-unique s (suc a) (suc b) (some n) g h = ap suc (Walk-unique s a b (parent_of s n) g h)

chain-Walk :
    (s : Store) (k : ℕ) (o : Option ℕ) (x : ℕ)
    → Walk s k o
    → has x (chain s k o) ≡ true
    → (j : ℕ) × (j ≤ k) × Walk s j (some x)
chain-Walk s zero none x w h = cc
chain-Walk s zero (some n) x w h = cc
chain-Walk s (suc k) none x w h = cc
chain-Walk s (suc k) (some n) x w h = elim (ℕ_discrete n x) [
  | yes here ↦ (suc k, omega arith, subst (λ m. Walk s (suc k) (some m)) here w)
  | no later ↦
      let (j, le, v) = chain-Walk s k (parent_of s n) x w (ground arith) in (j, omega arith, v)
]

chain-NoRepeat : (s : Store) (k : ℕ) (o : Option ℕ) → Walk s k o → NoRepeat (chain s k o)
chain-NoRepeat s zero none w = tt
chain-NoRepeat s zero (some n) w = tt
chain-NoRepeat s (suc k) none w = tt
chain-NoRepeat s (suc k) (some n) w = (
  elim (Bool-cases (has n (chain s k (parent_of s n)))) [
    | inl again ↦
        let (j, le, v) = chain-Walk s k (parent_of s n) n w again in
        absurd (omega (arith, Walk-unique s j (suc k) (some n) v w))
    | inr once ↦ once
  ],
  chain-NoRepeat s k (parent_of s n) w,
)

length-chain : (s : Store) (k : ℕ) (o : Option ℕ) → Walk s k o → length (chain s k o) ≡ k
length-chain s zero none w = refl
length-chain s zero (some n) w = refl
length-chain s (suc k) none w = absurd w
length-chain s (suc k) (some n) w = ap suc (length-chain s k (parent_of s n) w)

-- The way up from a node has an end, where what hangs nowhere has no parent.
pub climbs_Walk :
    (s : Store) (loose : Option ℕ) (n : ℕ)
    → parent_of s s.root ≡ none
    → Allows (λ c. parent_of s c ≡ none) loose
    → Climbs s loose n
    → (k : ℕ) × Walk s k (some n)
climbs_Walk s loose n r l (top _ e) = (1, subst (Walk s 0) (sym (ap (parent_of s) e ∙ r)) tt)
climbs_Walk s loose n r l (off _ e) =
    (1, subst (Walk s 0) (sym (subst (Allows (λ c. parent_of s c ≡ none)) e l)) tt)
climbs_Walk s loose n r l (up _ q e k) =
    let (j, w) = climbs_Walk s loose q r l k in (suc j, subst (Walk s j) (sym e) w)

chain-live :
    (s : Store) (loose : Option ℕ) (k : ℕ) (o : Option ℕ) (x : ℕ)
    → Forest s loose
    → Allows (λ n. is_live (s.nodes n) ≡ true) o
    → has x (chain s k o) ≡ true
    → is_live (s.nodes x) ≡ true
chain-live s loose k none x f l h = cc
chain-live s loose zero (some n) x f l h = cc
chain-live s loose (suc k) (some n) x f l h = elim (ℕ_discrete n x) [
  | yes here ↦ ground (arith, here)
  | no later ↦ chain-live s loose k (parent_of s n) x f (above (parent_of s n) refl) (ground arith)
]
  where
    above : (o : Option ℕ) → parent_of s n ≡ o → Allows (λ m. is_live (s.nodes m) ≡ true) o
    above none e = tt
    above (some q) e = dir-is_live s q (f.in_dirs n q e)

pub Walk-next :
    (s : Store) (loose : Option ℕ) (k n : ℕ)
    → Forest s loose
    → is_live (s.nodes n) ≡ true
    → Walk s k (some n)
    → k ≤ s.next
Walk-next s loose k n f l w =
    subst (λ j. j ≤ s.next) (length-chain s k (some n) w)
      (pigeonhole s.next (chain s k (some n)) (chain-NoRepeat s k (some n) w)
        (λ x h. let live = chain-live s loose k (some n) x f l h in ground (arith, f.unused x)))

-- With enough rounds the walk looks at the whole chain.
pub climb-chain :
    (s : Store) (a rounds k : ℕ) (o : Option ℕ)
    → Walk s k o
    → k ≤ rounds
    → climb rounds s a o ≡ some (has a (chain s k o))
unfolding climb
climb-chain s a rounds zero none w h = refl
climb-chain s a rounds zero (some n) w h = absurd w
climb-chain s a rounds (suc k) none w h = absurd w
climb-chain s a zero (suc k) (some n) w h = absurd (omega arith)
climb-chain s a (suc rounds) (suc k) (some n) w h =
    ground (arith, climb-chain s a rounds k (parent_of s n) w)

-- One node is the other or lies above it.
pub data Above (s : Store) (a : ℕ) : ℕ → Type 0 where
  itself : (n : ℕ) → n ≡ a → Above s a n
  higher : (n p : ℕ) → parent_of s n ≡ some p → Above s a p → Above s a n

pub Above-chain :
    (s : Store) (a k n : ℕ) → Walk s k (some n) → Above s a n → has a (chain s k (some n)) ≡ true
Above-chain s a zero n w h = absurd w
Above-chain s a (suc k) n w (itself _ e) = ground arith
Above-chain s a (suc k) n w (higher _ p e h) =
    ground (arith, e, Above-chain s a k p (subst (Walk s k) e w) h)

pub chain-Above :
    (s : Store) (a k n : ℕ) → Walk s k (some n) → has a (chain s k (some n)) ≡ true → Above s a n
chain-Above s a zero n w h = absurd w
chain-Above s a (suc k) n w h = elim (ℕ_discrete n a) [
  | yes here ↦ itself n here
  | no other ↦ elim (Option-cases (parent_of s n)) [
    | inl none_above ↦ absurd (ground (arith, none_above))
    | inr (p, e) ↦ higher n p e (chain-Above s a k p (subst (Walk s k) e w) (ground (arith, e)))
  ]
]

-- On every tree the walk of `is_ancestor_or_self` from a node in it comes to its end, and it gives
-- `true` exactly if the first node is the second one or lies above it.
pub is_ancestor_or_self-returns :
    (s : Store) (a n : ℕ)
    → IsTree s
    → is_live (s.nodes n) ≡ true
    → (b : Bool) × (is_ancestor_or_self s a n ≡ some b) × ((b ≡ true) ↔ Above s a n)
unfolding is_ancestor_or_self
is_ancestor_or_self-returns s a n t l =
    let (k, w) = climbs_Walk s none n t.root_top tt (t.climbs n l) in
    (
      has a (chain s k (some n)),
      climb-chain s a (s.next + 1) k (some n) w (omega (arith, Walk-next s none k n t l w)),
      (chain-Above s a k n w, Above-chain s a k n w),
    )
