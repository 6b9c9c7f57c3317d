-- ===== src/Scarf/Saving.antt =====
-- Saving and loading of userland/rust/scarf/src/buffer.rs: a saved buffer is loaded again.
use anss_os.Common.{
  is_empty_of_ne, Bytes, List, [], ap, append-nil, append_assoc, arith, c_string, length-ne_zero,
  refl, some, sym, true, ◌++◌, ◌∙◌, ◌∷◌, ◌≡◌, ◌≢◌,
}
use anss_os.Scarf.Files.{Files, wrote}
use anss_os.Scarf.Buffer
use anss_os.Scarf.Buffer.{
  Buffer, Loading, load_byte, load_bytes, load_chunks, loaded_lines, saved_bytes, with_last,
  at_least_one,
}

-- A line that a file can hold: the newline ends it, and a carriage return is dropped on loading.
abbrev pub IsLine : Bytes → Type 0
IsLine [] = Unit
IsLine (b ∷ bs) = (b ≢ b'\n') × (b ≢ b'\r') × IsLine bs

abbrev pub AllLines : List Bytes → Type 0
AllLines [] = Unit
AllLines (l ∷ ls) = IsLine l × AllLines ls

-- No read but the last returns nothing.
abbrev pub AllFull : List Bytes → Type 0
AllFull [] = Unit
AllFull (c ∷ cs) = (c ≢ []) × AllFull cs

abbrev pub concat : List Bytes → Bytes
concat [] = []
concat (c ∷ cs) = c ++ concat cs

load_bytes-append :
    (xs ys : Bytes) (s : Loading) → load_bytes s (xs ++ ys) ≡ load_bytes (load_bytes s xs) ys
unfolding load_bytes
load_bytes-append [] ys s = refl
load_bytes-append (x ∷ xs) ys s = load_bytes-append xs ys (load_byte s x)

-- How the file comes in chunks does not matter.
load_chunks-eq-load_bytes :
    (cs : List Bytes) (s : Loading) → AllFull cs → load_chunks s cs ≡ load_bytes s (concat cs)
unfolding load_chunks load_bytes
load_chunks-eq-load_bytes [] s f = refl
load_chunks-eq-load_bytes ([] ∷ cs) s f = absurd (f.0 refl)
load_chunks-eq-load_bytes ((b ∷ bs) ∷ cs) s f =
    load_chunks-eq-load_bytes cs (load_bytes s (b ∷ bs)) f.1
    ∙ sym (load_bytes-append (b ∷ bs) (concat cs) s)

-- One line and its newline.
load_bytes-line :
    (l rest : Bytes) (done : List Bytes) (cur : Bytes)
    → IsLine l
    → load_bytes (record { lines = done; line = cur }) (l ++ b'\n' ∷ rest)
      ≡ load_bytes (record { lines = done ++ (cur ++ l) ∷ []; line = [] }) rest
unfolding load_bytes load_byte
load_bytes-line [] rest done cur h =
    ap (λ c. load_bytes (record { lines = done ++ c ∷ []; line = [] }) rest) (sym (append-nil cur))
load_bytes-line (b ∷ l) rest done cur h =
    ground (arith, load_bytes-line l rest done (cur ++ b ∷ []) h.2, append_assoc cur (b ∷ []) l)

load_bytes-saved_bytes :
    (ls done : List Bytes)
    → AllLines ls
    → load_bytes (record { lines = done; line = [] }) (saved_bytes ls)
      ≡ record { lines = done ++ ls; line = [] }
unfolding saved_bytes load_bytes
load_bytes-saved_bytes [] done h =
    ap (λ xs. record { lines = xs; line = [] }) (sym (append-nil done))
load_bytes-saved_bytes (l ∷ ls) done h =
    load_bytes-line l (saved_bytes ls) done [] h.0
    ∙ load_bytes-saved_bytes ls (done ++ l ∷ []) h.1
    ∙ ap (λ xs. record { lines = xs; line = [] }) (append_assoc done (l ∷ []) ls)

at_least_one_lem : (ls : List Bytes) → ls ≢ [] → at_least_one ls ≡ ls
unfolding at_least_one
at_least_one_lem [] h = absurd (h refl)
at_least_one_lem (l ∷ ls) h = refl

loaded_lines-saved_bytes :
    (ls chunks : List Bytes)
    → AllLines ls
    → ls ≢ []
    → AllFull chunks
    → concat chunks ≡ saved_bytes ls
    → loaded_lines (load_chunks (record { lines = []; line = [] }) chunks) ≡ ls
unfolding loaded_lines with_last
loaded_lines-saved_bytes ls chunks h ne full same =
    ap loaded_lines (
      load_chunks-eq-load_bytes chunks (record { lines = []; line = [] }) full
      ∙ ap (load_bytes (record { lines = []; line = [] })) same
      ∙ load_bytes-saved_bytes ls [] h)
    ∙ at_least_one_lem ls ne

-- A buffer that was saved is loaded again as it was, in however many reads the file comes, if its
-- lines have no newline or carriage return of their own (it always has a line, and its name no NUL).
pub open_file-save :
    (before after : Files) (b : Buffer) (chunks : List Bytes)
    → AllLines b.lines
    → b.lines ≢ []
    → b.filename ≢ []
    → c_string b.filename ≡ some b.filename
    → before.write_all b.filename (saved_bytes b.lines) ≡ wrote true
    → after.reads b.filename ≡ some chunks
    → AllFull chunks
    → concat chunks ≡ saved_bytes b.lines
    → (Buffer.open_file after b.filename).0 ≡ (Buffer.save before b).0
unfolding Buffer.open_file Buffer.save
open_file-save before after b chunks h ne named nul saved reads full same = ground (
  arith,
  loaded_lines-saved_bytes b.lines chunks h ne full same,
  length-ne_zero b.filename,
  is_empty_of_ne b.filename,
)
