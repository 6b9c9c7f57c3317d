-- ===== src/Scarf/Sidebar.antt =====
-- userland/rust/scarf/src/sidebar.rs: the listing of one directory, and a selection in it.
use anss_os.Common.{
  Bool, Bytes, List, Option, [], bytes_eq, c_string, codes, false, get_elem?, if◌then◌else◌, leb,
  length, ltb, max, none, rfind, some, suc, take, true, zero, ℕ, ◌++◌, ◌+◌, ◌-◌, ◌==◌, ◌>>=◌, ◌∷◌,
}
use anss_os.Scarf.Files.{Files, DirEntry}

pub record Sidebar : Type 0 where
  pub cwd : Bytes
  pub entries : List DirEntry
  pub sel : ℕ
  pub offset : ℕ

pub data Activate : Type 0 where
  nothing : Activate
  open_path : Bytes → Activate

unfoldable pub new : Bytes → Sidebar
new cwd = record { cwd = cwd; entries = []; sel = 0; offset = 0 }

ends_with_slash : Bytes → Bool
ends_with_slash [] = false
ends_with_slash (x ∷ []) = x == b'/'
ends_with_slash (x ∷ y ∷ ys) = ends_with_slash (y ∷ ys)

unfoldable pub join : Bytes → Bytes → Bytes
unfolding ends_with_slash
join dir name = if ends_with_slash dir then dir ++ name else dir ++ b'/' ∷ name

parent_at : Bytes → Option ℕ → Bytes
parent_at path none = codes "/"
parent_at path (some zero) = codes "/"
parent_at path (some (suc i)) = take (suc i) path

unfoldable pub parent : Bytes → Bytes
unfolding parent_at rfind
parent path = parent_at path (rfind b'/' path)

dot_dot : Bytes → List DirEntry
dot_dot cwd =
    if bytes_eq cwd (codes "/") then [] else record { name = codes ".."; is_dir = true } ∷ []

module _ (files : Files) where
  unfoldable pub load : Sidebar → Sidebar × Bool
  unfolding dot_dot
  load s =
      let s1 : Sidebar = record s { sel = 0; offset = 0; entries = dot_dot s.cwd } in
      elim (c_string s.cwd >>= files.read_dir) [
        | none ↦ (s1, false)
        | some es ↦ (record s1 { entries = s1.entries ++ es }, true)
      ]

  unfoldable pub go_parent : Sidebar → Sidebar × Bool
  go_parent s = load (record s { cwd = parent s.cwd })

  unfoldable pub activate : Sidebar → Sidebar × Activate
  activate s = elim (get_elem? s.entries s.sel) [
    | none ↦ (s, nothing)
    | some e ↦
        if e.is_dir
        then (
          (load (record s {
            cwd = (if bytes_eq e.name (codes "..") then parent s.cwd else join s.cwd e.name);
          })).0,
          nothing,
        )
        else (s, open_path (join s.cwd e.name))
  ]

unfoldable pub up : Sidebar → Sidebar
up s = record s { sel = s.sel - 1 }

unfoldable pub down : Sidebar → Sidebar
down s = if ltb (s.sel + 1) (length s.entries) then record s { sel = s.sel + 1 } else s

unfoldable pub first : Sidebar → Sidebar
first s = record s { sel = 0 }

unfoldable pub last : Sidebar → Sidebar
last s = record s { sel = length s.entries - 1 }

unfoldable pub scroll : Sidebar → ℕ → Sidebar
scroll s visible =
    let rows = max visible 1 in
    let s1 : Sidebar = (if ltb s.sel s.offset then record s { offset = s.sel } else s) in
    if leb (s1.offset + rows) s1.sel then record s1 { offset = s1.sel + 1 - rows } else s1
