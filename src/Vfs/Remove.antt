-- ===== src/Vfs/Remove.antt =====
-- kernel/src/fs/vfs.rs: removing a node.
use anss_os.Common.{
  Allows, Bool-cases, Bytes, Option, Option-cases, ap, arith, false, inl, inr, none, not, refl,
  some, subst, sym, true, ℕ, ◌==◌, ◌||◌, ◌↔◌, ◌∙◌, ◌≡◌, ◌≢◌, ◌⊎◌,
}
use native.Mathlib.Decide.{ℕ_discrete}
use anss_os.Vfs.Store.{Store, node, or_blank, blank_node, has, unlink_child, is_ancestor_or_self}
use anss_os.Vfs.Paths.{resolve}
use anss_os.Vfs.Ops.{remove as rm, free_tree, remove_at, is_false}
use anss_os.Vfs.Forest.{
  parent_of, children_of, is_live, points_to, Climbs, top, off, up, Forest, IsTree,
}
use anss_os.Vfs.Linking.{child-is_live}
use anss_os.Vfs.Loose.{unlink-Forest, unlink-loose, unlink-kept, unlink-live, unlink-shape}
use anss_os.Vfs.Depth.{
  Walk, climbs_Walk, chain, chain-Above, Above-chain, Above, itself, higher,
  is_ancestor_or_self-returns,
}
use anss_os.Vfs.Free.{Freed, free_tree-Freed}
use anss_os.Vfs.Reached.{resolve-live}
use anss_os.Vfs.Move.{unlink_lem}

module _ (s : Store) (n : ℕ) (f : Forest s (some n)) (hung : parent_of s n ≡ none)
    (live : is_live (s.nodes n) ≡ true) (not_root : n ≢ s.root) (after : Store)
    (freed : Freed s n f n s after) where
  above_dec : (x : ℕ) → Dec (Above s n x)
  above_dec x = elim (Bool-cases (is_live (s.nodes x))) [
    | inl here ↦
        let (k, w) = climbs_Walk s (some n) x f.root_top hung (f.climbs x here) in
        elim (Bool-cases (has n (chain s k (some x)))) [
          | inl found ↦ yes (chain-Above s n k x w found)
          | inr missing ↦ no (λ h. ground (arith, Above-chain s n k x w h))
        ]
    | inr nothing ↦ no (nowhere x nothing)
  ]
    where
      nowhere : (x : ℕ) → is_live (s.nodes x) ≡ false → ¬ Above s n x
      nowhere x h (itself _ e) = ground (arith, e, live)
      nowhere x h (higher _ p e k) = ground (arith, child-is_live s x p e)

  -- What is left of a node.
  abbrev Left : ℕ → Type 0
  Left x =
      (Above s n x × (node after x ≡ blank_node) × (after.nodes x ≡ none))
      ⊎ (¬ Above s n x × (node after x ≡ node s x) × (after.nodes x ≡ s.nodes x))

  left : (x : ℕ) → Left x
  unfolding node
  left x = elim (above_dec x) [
    | yes under ↦ inl (under, ap or_blank (freed.gone x under), freed.gone x under)
    | no other ↦ inr (other, ap or_blank (freed.stays x other), freed.stays x other)
  ]

  under_parent : (c p : ℕ) → parent_of s c ≡ some p → Above s n c → Above s n p
  under_parent c p e (itself _ h) = absurd (ground arith)
  under_parent c p e (higher _ q h k) = subst (Above s n) (ground (arith, e, h)) k

  root_stays : ¬ Above s n s.root
  root_stays (itself _ e) = not_root (sym e)
  root_stays (higher _ p e k) = ground (arith, f.root_top)

  root_same : node after s.root ≡ node s s.root
  root_same = elim (left s.root) [
    | inl (under, blank, b) ↦ absurd (root_stays under)
    | inr (other, same, b) ↦ same
  ]

  -- A node that is left is as it was, and so is every node with a parent.
  abbrev Same : ℕ → Type 0
  Same x = ¬ Above s n x × (node after x ≡ node s x) × (after.nodes x ≡ s.nodes x)

  alive : (x : ℕ) → is_live (after.nodes x) ≡ true → Same x
  alive x l = elim (left x) [ inl (under, blank, b) ↦ absurd (ground (arith, b)) | inr same ↦ same ]

  has_parent : (c p : ℕ) → parent_of after c ≡ some p → Same c × Same p × (parent_of s c ≡ some p)
  has_parent c p e = elim (left c) [
    | inl (under, blank, b) ↦ absurd (ground (arith, blank))
    | inr (other, same, b) ↦
        let e' = sym (ap (λ v. v.parent) same) ∙ e in
        (
          (other, same, b),
          (elim (left p) [
            | inl (under, blank, b') ↦ absurd (other (higher c p e' under))
            | inr same' ↦ same'
          ]),
          e',
        )
  ]

  no_link : (c p : ℕ) → parent_of s c ≢ some p → has c (children_of s p) ≡ false
  no_link c p h = elim (Option-cases (parent_of s c)) [
    | inl none_above ↦ ground (arith, f.links c p, none_above)
    | inr (q, e) ↦ ground (arith, f.links c p, e)
  ]

  after-links : (c p : ℕ) → has c (children_of after p) ≡ points_to (parent_of after c) p
  after-links c p = elim (left c) [
    | inl (under, blank, b) ↦ elim (left p) [
      | inl (under', blank', b') ↦ ground (arith, blank, blank')
      | inr (other', same', b') ↦
          ground (arith, blank, same', no_link c p (λ e. other' (under_parent c p e under)))
    ]
    | inr (other, same, b) ↦ elim (left p) [
      | inl (under', blank', b') ↦
          ground (arith, same, blank', f.links c p, no_link c p (λ e. other (higher c p e under')))
      | inr (other', same', b') ↦ ground (arith, same, same', f.links c p)
    ]
  ]

  after-climbs : (x : ℕ) → Climbs s (some n) x → ¬ Above s n x → Climbs after none x
  after-climbs x (top _ e) h = top x (e ∙ sym freed.same_root)
  after-climbs x (off _ e) h = absurd (h (itself x (ground arith)))
  after-climbs x (up _ q e k) h =
      up x q (ground (arith, left x)) (after-climbs q k (λ u. h (higher x q e u)))

  top_is_root : (x : ℕ) → Same x → (x ≡ s.root) ⊎ (some n ≡ some x) → x ≡ after.root
  top_is_root x h (inl e) = e ∙ sym freed.same_root
  top_is_root x h (inr e) = absurd (h.0 (itself x (ground arith)))

  pub after-IsTree : IsTree after
  after-IsTree = record {
    links = after-links;
    once = λ p. ground (arith, left p, f.once p);
    in_dirs = λ c p e. ground (arith, has_parent c p e, f.in_dirs c p);
    tops = λ x l e.
        let same = alive x l in
        inl (top_is_root x same (f.tops x (ground (arith, same)) (ground (arith, same))));
    names = λ a b p g h e. ground (arith, has_parent a p g, has_parent b p h, f.names a b p);
    short = λ x. ground (arith, left x, f.short x);
    climbs =
        λ x l. let same = alive x l in after-climbs x (f.climbs x (ground (arith, same))) same.0;
    root_dir = ground (arith, root_same, f.root_dir, freed.same_root);
    root_top = ground (arith, root_same, f.root_top, freed.same_root);
    unused = λ x h. ground (arith, left x, f.unused x, freed.same_next);
  }

-- What lies under a node that is cut off lay under it before.
Above-unlink :
    (s : Store) (q n x : ℕ) (t : IsTree s)
    → parent_of s n ≡ some q
    → Above (unlink_child s q n) n x
    → Above s n x
Above-unlink s q n x t e (itself _ h) = itself x h
Above-unlink s q n x t e (higher _ p h k) =
    higher x p (ground (arith, unlink-kept s q n t e x)) (Above-unlink s q n p t e k)

Above-cut_off :
    (s : Store) (q n x : ℕ) (t : IsTree s)
    → parent_of s n ≡ some q
    → Above s n x
    → Above (unlink_child s q n) n x
Above-cut_off s q n x t e (itself _ h) = itself x h
Above-cut_off s q n x t e (higher _ p h k) = elim (ℕ_discrete x n) [
  | yes same ↦ itself x same
  | no other ↦ higher x p (ground (arith, unlink-kept s q n t e x)) (Above-cut_off s q n p t e k)
]

module _ (s : Store) (n q : ℕ) (t : IsTree s) (parent : parent_of s n ≡ some q)
    (not_root : n ≢ s.root) where
  abbrev cut_off : Store
  cut_off = unlink_child s q n

  alone : is_live (cut_off.nodes n) ≡ true
  alone = ground (arith, unlink-live s q n t parent n, child-is_live s n q parent)

  loose_not_root : n ≢ cut_off.root
  loose_not_root e = not_root (e ∙ (unlink-shape s q n t parent).0)

  cut_off-Freed :
      Freed cut_off n (unlink-Forest s q n t parent) n cut_off (free_tree s.next cut_off n)
  cut_off-Freed =
      free_tree-Freed cut_off n (unlink-Forest s q n t parent) s.next cut_off n 1
        (subst (Walk cut_off 0) (sym (unlink-loose s q n t parent)) tt)
        (omega (arith, (unlink-shape s q n t parent).1)) alone (λ x h. refl)

  removed-IsTree : IsTree (free_tree s.next cut_off n)
  removed-IsTree =
      after-IsTree cut_off n (unlink-Forest s q n t parent) (unlink-loose s q n t parent) alone
        loose_not_root (free_tree s.next cut_off n) cut_off-Freed

  removed-live :
      (m : ℕ)
      → is_live (s.nodes m) ≡ true
      → ¬ Above s n m
      → is_live ((free_tree s.next cut_off n).nodes m) ≡ true
  removed-live m l h = ground (
    arith,
    cut_off-Freed.stays m (λ k. h (Above-unlink s q n m t parent k)),
    unlink-live s q n t parent m,
  )

  removed_dead :
      (m : ℕ)
      → is_live (s.nodes m) ≡ true
      → (is_live ((free_tree s.next cut_off n).nodes m) ≡ false) ↔ Above s n m
  removed_dead m l = (
    (λ dead.
        elim (above_dec cut_off n (unlink-Forest s q n t parent) (unlink-loose s q n t parent) alone
          loose_not_root _ cut_off-Freed m) [
            | yes under ↦ Above-unlink s q n m t parent under
            | no other ↦
                absurd (ground (arith, cut_off-Freed.stays m other, unlink-live s q n t parent m))
          ]),
    (λ under. ap is_live (cut_off-Freed.gone m (Above-cut_off s q n m t parent under))),
  )

pub removed_at :
    (s : Store) (cwd n x : ℕ) (found : Option ℕ)
    → IsTree s
    → (remove_at s cwd found).1 ≡ true
    → found ≡ some n
    → is_live (s.nodes n) ≡ true
    → is_live (s.nodes x) ≡ true
    → (is_live ((remove_at s cwd found).0.nodes x) ≡ false) ↔ Above s n x
unfolding remove_at
removed_at s cwd n x none t done found l lx = cc
removed_at s cwd n x (some m) t done found l lx =
    let same = ap (elim [ none ↦ m | some k ↦ k ]) found in
    elim (Bool-cases (m == s.root || not (is_false (is_ancestor_or_self s m cwd)))) [
      | inl refused ↦ absurd (ground (arith, refused))
      | inr fine ↦ elim (Option-cases (parent_of s m)) [
        | inl nowhere ↦ absurd (ground (arith, t.tops m))
        | inr (q, e) ↦
            rw (fine, unlink_lem s m q e)
              (subst
                (λ y.
                  (is_live ((free_tree s.next (unlink_child s q m) m).nodes x) ≡ false)
                  ↔ Above s y x)
                same (removed_dead s m q t e (ground arith) x lx))
      ]
    ]

-- On a tree and from a base in it: when `remove` succeeds on a path that leads to a node, exactly the
-- nodes that lay under that node are freed, itself with them, and every other node is kept.
pub removed_exactly :
    (s : Store) (base : ℕ) (path : Bytes) (cwd n x : ℕ)
    → IsTree s
    → is_live (s.nodes base) ≡ true
    → resolve s base path ≡ some n
    → (rm s base path cwd).1 ≡ true
    → is_live (s.nodes x) ≡ true
    → (is_live ((rm s base path cwd).0.nodes x) ≡ false) ↔ Above s n x
unfolding rm
removed_exactly s base path cwd n x t l found done lx =
    removed_at s cwd n x (resolve s base path) t done found
      (subst (Allows (λ m. is_live (s.nodes m) ≡ true)) found (resolve-live s base path t l)) lx

-- `remove` keeps the tree, and the directory of the caller with it.
pub remove_at-Safe :
    (s : Store) (cwd : ℕ) (found : Option ℕ)
    → IsTree s
    → is_live (s.nodes cwd) ≡ true
    → Allows (λ n. is_live (s.nodes n) ≡ true) found
    → IsTree (remove_at s cwd found).0 × (is_live ((remove_at s cwd found).0.nodes cwd) ≡ true)
unfolding remove_at
remove_at-Safe s cwd none t l h = (t, l)
remove_at-Safe s cwd (some n) t l h =
    elim (Bool-cases (n == s.root || not (is_false (is_ancestor_or_self s n cwd)))) [
      | inl refused ↦ rw refused (t, l)
      | inr fine ↦ elim (Option-cases (parent_of s n)) [
        | inl nowhere ↦ absurd (ground (arith, t.tops n))
        | inr (q, e) ↦
            let (b, r, iff) = is_ancestor_or_self-returns s n cwd t l in
            rw (fine, unlink_lem s n q e)
              (
                removed-IsTree s n q t e (ground arith),
                removed-live s n q t e (ground arith) cwd l (λ k. ground (arith, r, iff.1 k)),
              )
      ]
    ]
