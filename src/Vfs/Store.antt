-- ===== src/Vfs/Store.antt =====
-- kernel/src/fs/vfs.rs: nodes, and the pointers between them. A pointer is a number; a node has the list
-- of its children where the source links them through `sibling`.
use anss_os.Common.{
  Bool, Bytes, List, Option, [], false, floor_char_boundary, if◌then◌else◌, none, some, suc, take,
  true, zero, ℕ, ◌+◌, ◌-◌, ◌==◌, ◌∷◌,
}

abbrev pub name_max : ℕ
name_max = 64

pub data VnodeType : Type 0 where
  dir file : VnodeType

pub record Vnode : Type 0 where
  pub name : Bytes
  pub kind : VnodeType
  pub parent : Option ℕ
  pub children : List ℕ
  pub content : Bytes

-- The nodes in the kernel's heap; `next` is a pointer that was never given out.
pub record Store : Type 0 where
  pub nodes : ℕ → Option Vnode
  pub next : ℕ
  pub root : ℕ

-- Names are cut to 63 bytes, at a character boundary.
unfoldable pub cut : Bytes → Bytes
cut name = take (floor_char_boundary name (name_max - 1)) name

abbrev pub blank_node : Vnode
blank_node = record { name = []; kind = file; parent = none; children = []; content = [] }

abbrev pub or_blank : Option Vnode → Vnode
or_blank none = blank_node
or_blank (some v) = v

-- `&*n`. Where there is no node the source's read is undefined; this one gives a file without a name.
unfoldable pub node : Store → ℕ → Vnode
node s n = or_blank (s.nodes n)

abbrev pub is_directory : VnodeType → Bool
is_directory dir = true
is_directory file = false

abbrev pub is_dir : Store → ℕ → Bool
is_dir s n = is_directory (node s n).kind

unfoldable pub put_node : Store → ℕ → Option Vnode → Store
put_node s n v = record s { nodes = λ m. if m == n then v else s.nodes m }

abbrev pub update : Store → ℕ → Vnode → Store
update s n v = put_node s n (some v)

unfoldable pub set_name : Store → ℕ → Bytes → Store
set_name s n name = update s n (record (node s n) { name = cut name })

unfoldable pub alloc_vnode : Store → Bytes → VnodeType → Store × ℕ
alloc_vnode s name kind = (
  record (update s s.next
      (record { name = cut name; kind = kind; parent = none; children = []; content = [] })) {
        next = s.next + 1;
      },
  s.next,
)

unfoldable pub link_child : Store → ℕ → ℕ → Store
link_child s parent child =
    let s1 = update s child (record (node s child) { parent = some parent }) in
    update s1 parent (record (node s1 parent) { children = child ∷ (node s1 parent).children })

-- Whether the pointer is in the list.
abbrev pub has : ℕ → List ℕ → Bool
has c [] = false
has c (x ∷ xs) = if x == c then true else has c xs

unfoldable pub without : ℕ → List ℕ → List ℕ
without c [] = []
without c (x ∷ xs) = if x == c then xs else x ∷ without c xs

-- `unlink_child`, for a child that is in the list; else nothing.
unfoldable pub unlink_child : Store → ℕ → ℕ → Store
unlink_child s parent child =
    let s1 =
      update s parent
        (record (node s parent) { children = without child (node s parent).children }) in
    if has child (node s parent).children
    then update s1 child (record (node s1 child) { parent = none })
    else s

-- The loop of `is_ancestor_or_self`: `none` when the rounds run out.
unfoldable pub climb : ℕ → Store → ℕ → Option ℕ → Option Bool
climb rounds s ancestor none = some false
climb zero s ancestor (some n) = none
climb (suc rounds) s ancestor (some n) =
    let rest = climb rounds s ancestor (node s n).parent in
    if n == ancestor then some true else rest

unfoldable pub is_ancestor_or_self : Store → ℕ → ℕ → Option Bool
is_ancestor_or_self s ancestor n = climb (s.next + 1) s ancestor (some n)

-- `init`: a store with the root alone.
unfoldable pub init : Store
init = record {
  nodes = λ n.
      if n == 0
      then some (record { name = []; kind = dir; parent = none; children = []; content = [] })
      else none;
  next = 1;
  root = 0;
}
