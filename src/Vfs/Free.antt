-- ===== src/Vfs/Free.antt =====
-- kernel/src/fs/vfs.rs: freeing a node and all that lies under it.
use anss_os.Common.{
  Bool-cases, List, Option-cases, [], ap, arith, if◌then◌else◌, inl, inr, none, refl, some, subst,
  suc, sym, true, zero, ℕ, ◌+◌, ◌<◌, ◌∙◌, ◌∷◌, ◌≡◌, ◌≢◌, ◌≤◌, ◌⊎◌,
}
use native.Mathlib.Decide.{ℕ_discrete}
use anss_os.Vfs.Store.{Store, node, or_blank, is_dir, put_node, has}
use anss_os.Vfs.Ops.{free_all, free_tree}
use anss_os.Vfs.Forest.{parent_of, children_of, is_live, NoRepeat, Forest}
use anss_os.Vfs.Linking.{child-is_live}
use anss_os.Vfs.Depth.{Walk, Walk-unique, Walk-next, Above, itself, higher}

Walk-at : (s : Store) (a x j k : ℕ) → x ≡ a → Walk s j (some a) → Walk s k (some x) → j ≡ k
Walk-at s a x j k e v w = Walk-unique s j k (some a) v (subst (λ n. Walk s k (some n)) e w)

-- What lies under a node is at least as far down.
Above-Walk : (s : Store) (a x i k : ℕ) → Above s a x → Walk s i (some a) → Walk s k (some x) → i ≤ k
Above-Walk s a x i zero h v w = absurd w
Above-Walk s a x i (suc k) (itself _ e) v w = omega (arith, Walk-at s a x i (suc k) e v w)
Above-Walk s a x i (suc k) (higher _ p e h) v w =
    omega (arith, Above-Walk s a p i k h v (subst (Walk s k) e w))

end_below : (s : Store) (a x i : ℕ) → Walk s i (some a) → Above s a x → (k : ℕ) × Walk s k (some x)
end_below s a x i v (itself _ e) = (i, subst (λ n. Walk s i (some n)) (sym e) v)
end_below s a x i v (higher _ p e h) =
    let (k, w) = end_below s a p i v h in (suc k, subst (Walk s k) (sym e) w)

-- Two nodes equally far down, one node under both.
Above-same :
    (s : Store) (a b x j k : ℕ)
    → Above s a x
    → Above s b x
    → Walk s j (some a)
    → Walk s j (some b)
    → Walk s k (some x)
    → a ≡ b
Above-same s a b x j zero f g v w u = absurd u
Above-same s a b x j (suc k) (itself _ e) (itself _ e') v w u = sym e ∙ e'
Above-same s a b x j (suc k) (itself _ e) (higher _ p h g) v w u =
    absurd (
      omega (arith, Walk-at s a x j (suc k) e v u, Above-Walk s b p j k g w (subst (Walk s k) h u)))
Above-same s a b x j (suc k) (higher _ p h f) (itself _ e) v w u =
    absurd (
      omega (arith, Walk-at s b x j (suc k) e w u, Above-Walk s a p j k f v (subst (Walk s k) h u)))
Above-same s a b x j (suc k) (higher _ p h f) (higher _ p' h' g) v w u =
    Above-same s a b p j k f (subst (Above s b) (ground (arith, h, h')) g) v w
      (subst (Walk s k) h u)

-- Under a node: the node, or something under one of its children.
pub Above-split :
    (s : Store) (a x : ℕ)
    → Above s a x
    → (x ≡ a) ⊎ ((c : ℕ) × (parent_of s c ≡ some a) × Above s c x)
Above-split s a x (itself _ e) = inl e
Above-split s a x (higher _ p e h) = elim (Above-split s a p h) [
  | inl top ↦ inr (x, e ∙ ap some top, itself x refl)
  | inr (c, f, k) ↦ inr (c, f, higher x p e k)
]

under_child : (s : Store) (a c x : ℕ) → parent_of s c ≡ some a → Above s c x → Above s a x
under_child s a c x e (itself _ f) = higher x a (ap (parent_of s) f ∙ e) (itself a refl)
under_child s a c x e (higher _ p f h) = higher x p f (under_child s a c p e h)

module _ (s : Store) (loose : ℕ) (f : Forest s (some loose)) where
  abbrev pub Untouched : Store → ℕ → Type 0
  Untouched now m = (x : ℕ) → Above s m x → now.nodes x ≡ s.nodes x

  -- The nodes under `m` are gone, the others are as they were.
  pub record Freed (m : ℕ) (now after : Store) : Type 0 where
    pub gone : (x : ℕ) → Above s m x → after.nodes x ≡ none
    pub stays : (x : ℕ) → ¬ Above s m x → after.nodes x ≡ now.nodes x
    pub same_root : after.root ≡ now.root
    pub same_next : after.next ≡ now.next

  abbrev AllFreed : List ℕ → Store → Store → Type 0
  AllFreed cs now after =
      ((x c : ℕ) → has c cs ≡ true → Above s c x → after.nodes x ≡ none)
      × ((x : ℕ) → ((c : ℕ) → has c cs ≡ true → ¬ Above s c x) → after.nodes x ≡ now.nodes x)
      × (after.root ≡ now.root)
      × (after.next ≡ now.next)

  module _ (free : Store → ℕ → Store) (m j : ℕ) (at : Walk s j (some m))
      (frees : (now : Store) (c : ℕ)
        → parent_of s c ≡ some m
        → Untouched now c
        → Freed c now (free now c)) where
    child_Walk : (c : ℕ) → parent_of s c ≡ some m → Walk s (suc j) (some c)
    child_Walk c e = subst (Walk s j) (sym e) at

    -- The subtrees of different children have nothing in common.
    apart :
        (a b x : ℕ)
        → parent_of s a ≡ some m
        → parent_of s b ≡ some m
        → a ≢ b
        → Above s a x
        → ¬ Above s b x
    apart a b x ha hb ne f g =
        let (k, w) = end_below s a x (suc j) (child_Walk a ha) f in
        ne (Above-same s a b x (suc j) k f g (child_Walk a ha) (child_Walk b hb) w)

    free_all-AllFreed :
        (now : Store) (cs : List ℕ)
        → NoRepeat cs
        → ((c : ℕ) → has c cs ≡ true → parent_of s c ≡ some m)
        → ((c : ℕ) → has c cs ≡ true → Untouched now c)
        → AllFreed cs now (free_all free now cs)
    unfolding free_all
    free_all-AllFreed now [] u p h = (λ x c e k. absurd (ground arith), λ x e. refl, refl, refl)
    free_all-AllFreed now (c ∷ cs) u p h =
        let one = frees now c (p c (ground arith)) (h c (ground arith)) in
        let (gone, stays, r, n) =
          free_all-AllFreed (free now c) cs u.1 (λ y e. p y (ground arith))
            (λ y e x k.
              one.stays x
                (apart y c x (p y (ground arith)) (p c (ground arith)) (λ same. ground arith) k)
              ∙ h y (ground arith) x k) in
        (
          λ x y e k. elim (ℕ_discrete c y) [
            | yes same ↦
                let under_c = subst (λ n. Above s n x) (sym same) k in
                stays x (λ z i.
                  apart c z x (p c (ground arith)) (p z (ground arith)) (λ same'. ground arith)
                    under_c)
                ∙ one.gone x under_c
            | no other ↦ gone x y (ground arith) k
          ],
          λ x e. stays x (λ y h'. e y (ground arith)) ∙ one.stays x (e c (ground arith)),
          r ∙ one.same_root,
          n ∙ one.same_next,
        )

  listed_parent : (c p : ℕ) → has c (children_of s p) ≡ true → parent_of s c ≡ some p
  listed_parent c p h = elim (Option-cases (parent_of s c)) [
    | inl none_above ↦ absurd (ground (arith, f.links c p, none_above))
    | inr (q, e) ↦ e ∙ ap some (ground (arith, f.links c p, e))
  ]

  kids : (Store → ℕ → Store) → Store → ℕ → Store
  kids free now m = if is_dir now m then free_all free now (node now m).children else now

  kept_node : (now : Store) (m : ℕ) → Untouched now m → node now m ≡ node s m
  unfolding node
  kept_node now m h = ap or_blank (h m (itself m refl))

  kids-AllFreed :
      (free : Store → ℕ → Store) (now : Store) (m j : ℕ)
      → Walk s j (some m)
      → ((now : Store) (c : ℕ)
          → parent_of s c ≡ some m
          → Untouched now c
          → Freed c now (free now c))
      → Untouched now m
      → AllFreed (children_of s m) now (kids free now m)
  unfolding kids
  kids-AllFreed free now m j w frees h = elim (Bool-cases (is_dir s m)) [
    | inl directory ↦
        rw (kept_node now m h, directory)
          (free_all-AllFreed free m j w frees now (children_of s m) (f.once m)
            (λ c e. listed_parent c m e)
            (λ c e x k. h x (under_child s m c x (listed_parent c m e) k)))
    | inr plain ↦
        rw (kept_node now m h, plain)
          (
            (λ x c e k.
                absurd (ground (arith, listed_parent c m e, f.in_dirs c m (listed_parent c m e)))),
            (λ x e. refl),
            refl,
            refl,
          )
  ]

  kids_then_self :
      (now after : Store) (m : ℕ)
      → AllFreed (children_of s m) now after
      → Freed m now (put_node after m none)
  unfolding put_node
  kids_then_self now after m (gone, stays, r, n) = record {
    gone = λ x k. elim (ℕ_discrete x m) [
      | yes same ↦ ground arith
      | no other ↦ elim (Above-split s m x k) [
        | inl same ↦ absurd (other same)
        | inr (c, e, u) ↦ ground (arith, gone x c (ground (arith, f.links c m, e)) u)
      ]
    ];
    stays = λ x k.
        ground
          (arith, stays x (λ c e u. k (under_child s m c x (listed_parent c m e) u)), not_it x k);
    same_root = r;
    same_next = n;
  }
    where
      not_it : (x : ℕ) → ¬ Above s m x → x ≢ m
      not_it x k same = k (itself x same)

  -- A node's subtree is freed whole, where `depth` rounds reach below every node.
  pub free_tree-Freed :
      (depth : ℕ) (now : Store) (m j : ℕ)
      → Walk s j (some m)
      → s.next < j + depth
      → is_live (s.nodes m) ≡ true
      → Untouched now m
      → Freed m now (free_tree depth now m)
  unfolding free_tree kids
  free_tree-Freed zero now m j w d l h = absurd (omega (arith, Walk-next s (some loose) j m f l w))
  free_tree-Freed (suc depth) now m j w d l h =
      kids_then_self now (kids (free_tree depth) now m) m (
        kids-AllFreed (free_tree depth) now m j w
          (λ now' c e u.
            free_tree-Freed depth now' c (suc j) (subst (Walk s j) (sym e) w) (omega arith)
              (child-is_live s c m e) u)
          h)
