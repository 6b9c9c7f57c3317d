-- ===== src/Vfs/Linking.antt =====
-- kernel/src/fs/vfs.rs: hanging a loose node into the tree.
use anss_os.Common.{arith, inl, none, refl, some, sym, true, ℕ, ◌∙◌, ◌≡◌, ◌≢◌, ◌≤◌}
use anss_os.Vfs.Store.{Store, node, is_dir, put_node, link_child, has}
use anss_os.Vfs.Forest.{
  parent_of, children_of, name_of, is_live, points_to, NoRepeat, Climbs, top, off, up, Forest,
  IsTree, node-link_child,
}

pub dir-is_live : (s : Store) (n : ℕ) → is_dir s n ≡ true → is_live (s.nodes n) ≡ true
unfolding node
dir-is_live s n h = ground arith

pub child-is_live : (s : Store) (n p : ℕ) → parent_of s n ≡ some p → is_live (s.nodes n) ≡ true
unfolding node
child-is_live s n p h = ground arith

module _ (s : Store) (p c : ℕ) (f : Forest s (some c)) (loose : parent_of s c ≡ none)
    (live : is_live (s.nodes c) ≡ true) (not_root : c ≢ s.root) (in_dir : is_dir s p ≡ true)
    (ne : p ≢ c) where
  link-root : (link_child s p c).root ≡ s.root
  unfolding link_child put_node
  link-root = refl

  link-live : (n : ℕ) → is_live ((link_child s p c).nodes n) ≡ is_live (s.nodes n)
  unfolding link_child put_node
  link-live n = ground (arith, dir-is_live s p in_dir, live)

  link-links :
      (x y : ℕ)
      → has x (children_of (link_child s p c) y) ≡ points_to (parent_of (link_child s p c) x) y
  link-links x y =
      ground (arith, node-link_child s p c y ne, node-link_child s p c x ne, f.links x y)

  link-once : (y : ℕ) → NoRepeat (children_of (link_child s p c) y)
  link-once y = ground (arith, node-link_child s p c y ne, f.once y, f.links c p, loose)

  link-in_dirs :
      (x y : ℕ) → parent_of (link_child s p c) x ≡ some y → is_dir (link_child s p c) y ≡ true
  link-in_dirs x y h =
      ground (arith, node-link_child s p c y ne, node-link_child s p c x ne, f.in_dirs x y)

  link-tops :
      (n : ℕ)
      → is_live ((link_child s p c).nodes n) ≡ true
      → parent_of (link_child s p c) n ≡ none
      → n ≡ s.root
  link-tops n l h = ground (arith, node-link_child s p c n ne, f.tops n, link-live n)

  link-names :
      ((a : ℕ) → parent_of s a ≡ some p → name_of s a ≢ name_of s c)
      → (a b q : ℕ) → parent_of (link_child s p c) a ≡ some q
      → parent_of (link_child s p c) b ≡ some q
      → name_of (link_child s p c) a ≡ name_of (link_child s p c) b
      → a ≡ b
  link-names new a b q ha hb e =
      ground
        (arith, node-link_child s p c a ne, node-link_child s p c b ne, f.names a b q, new a, new b)

  -- The chain of parents from a node, if it does not meet `c`, is the same as before.
  link-climbs :
      Climbs (link_child s p c) none p
      → (n : ℕ) → Climbs s (some c) n
      → Climbs (link_child s p c) none n
  link-climbs above n (top _ e) = top n (e ∙ sym link-root)
  link-climbs above n (off _ e) = up n p (ground (arith, node-link_child s p c n ne)) above
  link-climbs above n (up _ q e k) =
      up n q (ground (arith, node-link_child s p c n ne)) (link-climbs above q k)

  link-unused : (n : ℕ) → s.next ≤ n → (link_child s p c).nodes n ≡ none
  unfolding link_child put_node
  link-unused n h = ground (arith, f.unused n, dir-is_live s p in_dir, live)

  link-next : (link_child s p c).next ≡ s.next
  unfolding link_child put_node
  link-next = refl

  pub link-IsTree :
      ((a : ℕ) → parent_of s a ≡ some p → name_of s a ≢ name_of s c)
      → Climbs (link_child s p c) none p
      → IsTree (link_child s p c)
  link-IsTree new above = record {
    links = link-links;
    once = link-once;
    in_dirs = link-in_dirs;
    tops = λ n l h. inl (link-tops n l h ∙ sym link-root);
    names = link-names new;
    short = λ n. ground (arith, node-link_child s p c n ne, f.short n, f.short p, f.short c);
    climbs = λ n l. link-climbs above n (f.climbs n (ground (arith, link-live n)));
    root_dir = ground (arith, node-link_child s p c s.root ne, f.root_dir, link-root);
    root_top = ground (arith, node-link_child s p c s.root ne, f.root_top, link-root);
    unused = λ n h. link-unused n (omega (arith, link-next));
  }
