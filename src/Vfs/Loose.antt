-- ===== src/Vfs/Loose.antt =====
-- kernel/src/fs/vfs.rs: new nodes, nodes that are taken out of the tree, and their names.
use anss_os.Common.{
  List, [], ap, arith, false, if◌then◌else◌, none, some, sym, true, ℕ, ◌==◌, ◌∙◌, ◌∷◌, ◌≡◌, ◌≢◌,
  ◌≤◌,
}
use anss_os.Vfs.Store.{Store, node, put_node, unlink_child, has, without}
use anss_os.Vfs.Forest.{
  parent_of, children_of, name_of, is_live, points_to, NoRepeat, Climbs, top, off, up, Forest,
  IsTree, node-unlink_child,
}
use native.Mathlib.Decide.{ℕ_discrete}
use anss_os.Vfs.Linking.{dir-is_live, child-is_live}

pub has-without :
    (x c : ℕ) (xs : List ℕ)
    → NoRepeat xs
    → has x (without c xs) ≡ (if x == c then false else has x xs)
unfolding without
has-without x c [] h = ground arith
has-without x c (y ∷ ys) h = ground (arith, has-without x c ys h.1)

pub without-NoRepeat : (c : ℕ) (xs : List ℕ) → NoRepeat xs → NoRepeat (without c xs)
unfolding without
without-NoRepeat c [] h = tt
without-NoRepeat c (y ∷ ys) h = ground (arith, without-NoRepeat c ys h.1, has-without y c ys h.1)

pub no_loop : (s : Store) (n : ℕ) → IsTree s → Climbs s none n → parent_of s n ≢ some n
no_loop s n t (top _ e) h = ground (arith, t.root_top)
no_loop s n t (off _ e) h = cc
no_loop s n t (up _ r e k) h = no_loop s r t k (ground arith)

module _ (s : Store) (p c : ℕ) (t : IsTree s) (child : parent_of s c ≡ some p) where
  pub not_own_parent : p ≢ c
  not_own_parent e = no_loop s c t (t.climbs c (child-is_live s c p child)) (ground arith)

  pub listed : has c (children_of s p) ≡ true
  listed = ground (arith, t.links c p)

  unlink-node :
      (m : ℕ)
      → node (unlink_child s p c) m ≡ (
          if m == p
          then record (node s p) { children = without c (children_of s p) }
          else if m == c
          then record (node s c) { parent = none }
          else node s m)
  unlink-node m = node-unlink_child s p c m not_own_parent listed

  pub unlink-live : (n : ℕ) → is_live ((unlink_child s p c).nodes n) ≡ is_live (s.nodes n)
  unfolding unlink_child put_node
  unlink-live n =
      ground (arith, listed, dir-is_live s p (t.in_dirs c p child), child-is_live s c p child)

  pub unlink-shape : ((unlink_child s p c).root ≡ s.root) × ((unlink_child s p c).next ≡ s.next)
  unfolding unlink_child put_node
  unlink-shape = ground (arith, listed)

  unlink-unused : (n : ℕ) → s.next ≤ n → (unlink_child s p c).nodes n ≡ none
  unfolding unlink_child put_node
  unlink-unused n h =
      ground (
        arith,
        listed,
        t.unused n,
        dir-is_live s p (t.in_dirs c p child),
        child-is_live s c p child,
      )

  unlink-links :
      (x y : ℕ)
      → has x (children_of (unlink_child s p c) y) ≡ points_to (parent_of (unlink_child s p c) x) y
  unlink-links x y = ground (
    arith,
    unlink-node x,
    unlink-node y,
    t.links x y,
    child,
    not_own_parent,
    has-without x c (children_of s p) (t.once p),
  )

  unlink-climbs : (n : ℕ) → Climbs s none n → Climbs (unlink_child s p c) (some c) n
  unlink-climbs n (top _ e) = top n (e ∙ sym unlink-shape.0)
  unlink-climbs n (off _ e) = absurd (ground arith)
  unlink-climbs n (up _ q e k) = elim (ℕ_discrete n c) [
    | yes same ↦ off n (ap some (sym same))
    | no other ↦ up n q (ground (arith, unlink-node n)) (unlink-climbs q k)
  ]

  unlink-names :
      (a b q : ℕ)
      → parent_of (unlink_child s p c) a ≡ some q
      → parent_of (unlink_child s p c) b ≡ some q
      → name_of (unlink_child s p c) a ≡ name_of (unlink_child s p c) b
      → a ≡ b
  unlink-names a b q ha hb e = ground (arith, unlink-node a, unlink-node b, t.names a b q)

  pub unlink-Forest : Forest (unlink_child s p c) (some c)
  unlink-Forest = record {
    links = unlink-links;
    once = λ y.
        ground (arith, unlink-node y, t.once y, without-NoRepeat c (children_of s p) (t.once p));
    in_dirs = λ x y h. ground (arith, unlink-node x, unlink-node y, t.in_dirs x y);
    tops = λ n l h. ground (arith, unlink-node n, t.tops n, unlink-live n, unlink-shape);
    names = unlink-names;
    short = λ n. ground (arith, unlink-node n, t.short n, t.short p, t.short c);
    climbs = λ n l. unlink-climbs n (t.climbs n (ground (arith, unlink-live n)));
    root_dir = ground (arith, unlink-node s.root, t.root_dir, unlink-shape);
    root_top = ground (arith, unlink-node s.root, t.root_top, unlink-shape);
    unused = λ n h. unlink-unused n (omega (arith, unlink-shape.1));
  }

  -- What is loose now, and that all else is as it was.
  pub unlink-loose : parent_of (unlink_child s p c) c ≡ none
  unlink-loose = ground (arith, unlink-node c, not_own_parent)

  pub unlink-kept :
      (n : ℕ)
      → ((node (unlink_child s p c) n).kind ≡ (node s n).kind)
        × (name_of (unlink_child s p c) n ≡ name_of s n)
        × ((node (unlink_child s p c) n).content ≡ (node s n).content)
        × (parent_of (unlink_child s p c) n ≡ (if n == c then none else parent_of s n))
  unlink-kept n = ground (arith, unlink-node n, not_own_parent)
