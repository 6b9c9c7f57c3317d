-- ===== src/Shell/History.antt =====
-- userland/rust/sh/src/history.rs: what was typed, oldest first.
use anss_os.Common.{
  Bool, Bytes, List, Option, [], bytes_eq, drop, false, get_or, if◌then◌else◌, is_empty, length,
  ltb, none, not, remove, some, suc, true, zero, ℕ, ◌&&◌, ◌++◌, ◌+◌, ◌-◌, ◌==◌, ◌∷◌,
}

abbrev pub max_items : ℕ
max_items = 500

abbrev pub History : Type 0
History = List Bytes

abbrev pub newline : ℕ
newline = b'\n'

-- `bytes.split(|b| b == '\n')`: always at least one piece.
unfoldable pub split_lines : Bytes → Bytes → List Bytes
split_lines line [] = line ∷ []
split_lines line (b ∷ bs) =
    let cut = line ∷ split_lines [] bs in
    let on = split_lines (line ++ b ∷ []) bs in if b == newline then cut else on

unfoldable pub retain_other : Bytes → History → History
retain_other line [] = []
retain_other line (l ∷ ls) =
    if bytes_eq l line then retain_other line ls else l ∷ retain_other line ls

unfoldable pub starts_with : Bytes → Bytes → Bool
starts_with [] ys = true
starts_with (x ∷ xs) [] = false
starts_with (x ∷ xs) (y ∷ ys) = x == y && starts_with xs ys

-- What `save` writes.
unfoldable pub saved_bytes : History → Bytes
saved_bytes [] = []
saved_bytes (l ∷ ls) = l ++ newline ∷ saved_bytes ls

-- `trim` is `str::trim`, and `utf8` is whether `str::from_utf8` accepts the bytes.
module _ (trim : Bytes → Bytes) (utf8 : Bytes → Bool) where
  unfoldable pub keep_lines : List Bytes → History
  keep_lines [] = []
  keep_lines (l ∷ ls) =
      if utf8 l && not (is_empty (trim l)) then l ∷ keep_lines ls else keep_lines ls

  -- `load`, of the bytes of the history file.
  unfoldable pub load : Bytes → History
  load file = let items = keep_lines (split_lines [] file) in drop (length items - max_items) items

  -- The new history, and what `save` then gives to `write_all`, whose answer it ignores: nothing when
  -- the line is empty, nor when `File::create` refuses, which `creates` tells.
  unfoldable pub add : Bool → History → Bytes → History × Option Bytes
  add creates items typed =
      let line = trim typed in
      let items1 = retain_other line items ++ line ∷ [] in
      let items2 = if ltb max_items (length items1) then remove items1 0 else items1 in
      if is_empty line
      then (items, none)
      else (items2, if creates then some (saved_bytes items2) else none)

-- Whether item `i` starts with the prefix and is longer.
unfoldable pub matches : History → Bytes → ℕ → Bool
matches items prefix i =
    let l = get_or items i [] in starts_with prefix l && not (bytes_eq l prefix)

-- `(0..end).rev().find(matches)`
unfoldable pub find_older : History → Bytes → ℕ → Option ℕ
find_older items prefix zero = none
find_older items prefix (suc i) =
    let rest = find_older items prefix i in if matches items prefix i then some i else rest

-- `(start..len).find(matches)`, `n` items from `i` on.
unfoldable pub find_newer : History → Bytes → ℕ → ℕ → Option ℕ
find_newer items prefix zero i = none
find_newer items prefix (suc n) i =
    let rest = find_newer items prefix n (i + 1) in if matches items prefix i then some i else rest

unfoldable pub search : History → Bytes → Option ℕ → Bool → Option ℕ
search items prefix none true = find_older items prefix (length items)
search items prefix (some i) true = find_older items prefix i
search items prefix none false = none
search items prefix (some i) false = find_newer items prefix (length items - (i + 1)) (i + 1)

-- The last item that is longer than the prefix, starts with it and is usable, of the first `i`.
unfoldable pub suggest_loop : History → Bytes → (Bytes → Bool) → ℕ → Option Bytes
suggest_loop items prefix usable zero = none
suggest_loop items prefix usable (suc i) =
    let l = get_or items i [] in
    let rest = suggest_loop items prefix usable i in
    if ltb (length prefix) (length l) && starts_with prefix l && usable l then some l else rest

unfoldable pub suggest : History → Bytes → (Bytes → Bool) → Option Bytes
suggest items prefix usable =
    if is_empty prefix then none else suggest_loop items prefix usable (length items)
