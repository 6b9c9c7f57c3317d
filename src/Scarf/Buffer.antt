-- ===== src/Scarf/Buffer.antt =====
-- userland/rust/scarf/src/buffer.rs: the lines being edited, loading and saving.
use Prim.Native.String.{String}
use anss_os.Common.{
  Bool, Bytes, List, Option, [], c_string, check, false, if◌then◌else◌, insert_at, is_empty, leb,
  length, ltb, none, remove, some, true, ℕ, ◌++◌, ◌==◌, ◌>>=◌, ◌∷◌,
}
use anss_os.Scarf.Files.{Files, WriteResult, cannot_create, wrote}

pub record Buffer : Type 0 where
  pub lines : List Bytes
  pub filename : Bytes
  pub dirty : Bool

unfoldable pub new : Buffer
new = record { lines = [] ∷ []; filename = []; dirty = false }

-- The lines read so far, and the line in progress.
pub record Loading : Type 0 where
  pub lines : List Bytes
  pub line : Bytes

unfoldable pub load_byte : Loading → ℕ → Loading
load_byte s b =
    if b == b'\n'
    then record { lines = s.lines ++ s.line ∷ []; line = [] }
    else if b == b'\r'
    then s
    else record s { line = s.line ++ b ∷ [] }

unfoldable pub load_bytes : Loading → Bytes → Loading
load_bytes s [] = s
load_bytes s (b ∷ bs) = load_bytes (load_byte s b) bs

-- The reads, up to the first that returns nothing.
unfoldable pub load_chunks : Loading → List Bytes → Loading
load_chunks s [] = s
load_chunks s ([] ∷ chunks) = s
load_chunks s ((b ∷ bs) ∷ chunks) = load_chunks (load_bytes s (b ∷ bs)) chunks

unfoldable pub with_last : List Bytes → Bytes → List Bytes
with_last ls [] = ls
with_last ls (b ∷ bs) = ls ++ (b ∷ bs) ∷ []

unfoldable pub at_least_one : List Bytes → List Bytes
at_least_one [] = [] ∷ []
at_least_one (l ∷ ls) = l ∷ ls

-- What `open` makes of them: a last line with no newline counts, and there is always a line.
unfoldable pub loaded_lines : Loading → List Bytes
loaded_lines s = at_least_one (with_last s.lines s.line)

module _ (files : Files) where
  -- The buffer, and the message to show.
  unfoldable pub open_file : Bytes → Buffer × String
  open_file path = elim (c_string path >>= files.reads) [
    | none ↦ (record { lines = [] ∷ []; filename = path; dirty = false }, "new file")
    | some chunks ↦ (
      record {
        lines = loaded_lines (load_chunks (record { lines = []; line = [] }) chunks);
        filename = path;
        dirty = false;
      },
      "opened",
    )
  ]

-- Every line, each followed by a newline.
unfoldable pub saved_bytes : List Bytes → Bytes
saved_bytes [] = []
saved_bytes (l ∷ ls) = l ++ b'\n' ∷ saved_bytes ls

-- `Result<&str, &str>`: whether it was saved, and the message.
unfoldable pub after_write : Buffer → WriteResult → Buffer × Bool × String
after_write b cannot_create = (b, false, "cannot open file for writing")
after_write b (wrote false) = (b, false, "write failed")
after_write b (wrote true) = (record b { dirty = false }, true, "written")

module _ (files : Files) where
  unfoldable pub save : Buffer → Buffer × Bool × String
  unfolding after_write
  save b =
      if is_empty b.filename
      then (b, false, "no file name -- use :w <path>")
      else (elim (c_string b.filename) [
        | none ↦ (b, false, "cannot open file for writing")
        | some path ↦ after_write b (files.write_all path (saved_bytes b.lines))
      ])

-- `Vec::insert` panics past the end.
unfoldable pub insert_line : Buffer → ℕ → Bytes → Option Buffer
insert_line b i line =
    check (leb i (length b.lines)) (record b { lines = insert_at b.lines i line; dirty = true })

unfoldable pub delete_line : Buffer → ℕ → Buffer
delete_line b i =
    let b1 : Buffer =
      (if ltb i (length b.lines) then record b { lines = remove b.lines i; dirty = true } else b) in
    record b1 { lines = at_least_one b1.lines }
