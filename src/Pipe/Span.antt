-- ===== src/Pipe/Span.antt =====
-- A stretch of the byte ring of kernel/src/exec/pipe.rs, read from the head on, and what its
-- copying loops do to it.
use anss_os.Common.{
  ℕ, zero, suc, ◌+◌, ◌-◌, ◌%◌, ◌≤◌, ◌<◌, ◌≡◌, refl, sym, ap, ap₂, ◌∙◌, List, [], ◌∷◌, ◌++◌,
  append-nil, append_assoc, arith, length, get_or, set, take, drop, length-set, get_or-set_self,
  get_or-set_ne,
}
use anss_os.Pipe.{buf_size, write_loop, read_loop}

-- The `n` bytes from offset `i` past `head` on, going round at the end of the array.
abbrev pub span : List ℕ → ℕ → ℕ → ℕ → List ℕ
span buf head i zero = []
span buf head i (suc n) = get_or buf ((head + i) % buf_size) 0 ∷ span buf head (i + 1) n

pub length-span : (buf : List ℕ) (head i n : ℕ) → length (span buf head i n) ≡ n
length-span buf head i zero = refl
length-span buf head i (suc n) = ap suc (length-span buf head (i + 1) n)

-- One more byte at the end.
span-suc :
    (buf : List ℕ) (head i n : ℕ)
    → span buf head i (suc n) ≡ span buf head i n ++ get_or buf ((head + (i + n)) % buf_size) 0 ∷ []
span-suc buf head i zero = ap (λ k. get_or buf ((head + k) % buf_size) 0 ∷ []) (omega arith)
span-suc buf head i (suc n) =
    ap (λ s. get_or buf ((head + i) % buf_size) 0 ∷ s)
      (span-suc buf head (i + 1) n
        ∙ ap (λ k. span buf head (i + 1) n ++ get_or buf ((head + k) % buf_size) 0 ∷ [])
            (omega arith))

-- A write to a place that the span does not reach.
span-set :
    (buf : List ℕ) (head i n j v : ℕ)
    → i + n ≤ j
    → j < i + buf_size
    → span (set buf ((head + j) % buf_size) v) head i n ≡ span buf head i n
span-set buf head i zero j v h k = refl
span-set buf head i (suc n) j v h k =
    ap₂ ◌∷◌ (get_or-set_ne buf ((head + j) % buf_size) ((head + i) % buf_size) v 0 (omega arith))
      (span-set buf head (i + 1) n j v (omega arith) (omega arith))

-- Writing just past the span extends it.
span-set_end :
    (buf : List ℕ) (head n v : ℕ)
    → length buf ≡ buf_size
    → n < buf_size
    → span (set buf ((head + n) % buf_size) v) head 0 (suc n) ≡ span buf head 0 n ++ v ∷ []
span-set_end buf head n v s h =
    span-suc (set buf ((head + n) % buf_size) v) head 0 n
    ∙ ap₂ (λ front back. front ++ back ∷ []) (span-set buf head 0 n n v (omega arith) (omega arith))
        (ap (λ k. get_or (set buf ((head + n) % buf_size) v) ((head + k) % buf_size) 0)
            (omega arith)
          ∙ get_or-set_self buf ((head + n) % buf_size) v 0 (omega arith))

pub length-write_loop :
    (bs : List ℕ) (i tail : ℕ) (buf : List ℕ) → length (write_loop bs i tail buf) ≡ length buf
unfolding write_loop
length-write_loop [] i tail buf = refl
length-write_loop (b ∷ bs) i tail buf =
    length-write_loop bs (i + 1) tail _ ∙ length-set buf ((tail + i) % buf_size) b

-- The loop of `write` appends its bytes to the `c + i` that are there.
pub span-write_loop :
    (bs : List ℕ) (head c i m : ℕ) (buf : List ℕ)
    → length buf ≡ buf_size
    → m ≡ c + i + length bs
    → m ≤ buf_size
    → span (write_loop bs i ((head + c) % buf_size) buf) head 0 m ≡ span buf head 0 (c + i) ++ bs
unfolding write_loop
span-write_loop [] head c i m buf s e h =
    ap (span buf head 0) (omega arith) ∙ sym (append-nil (span buf head 0 (c + i)))
span-write_loop (b ∷ bs) head c i m buf s e h =
    span-write_loop bs head c (i + 1) m (set buf place b) (length-set buf place b ∙ s) (omega arith)
      h
    ∙ ap (λ xs. xs ++ bs) (there ∙ span-set_end buf head (c + i) b s (omega arith))
    ∙ append_assoc (span buf head 0 (c + i)) (b ∷ []) bs
  where
    place : ℕ
    place = ((head + c) % buf_size + i) % buf_size

    here : place ≡ (head + (c + i)) % buf_size
    here = omega arith

    one_more : c + (i + 1) ≡ suc (c + i)
    one_more = omega arith

    there :
        span (set buf place b) head 0 (c + (i + 1))
        ≡ span (set buf ((head + (c + i)) % buf_size) b) head 0 (suc (c + i))
    there = ap₂ (λ k j. span (set buf k b) head 0 j) here one_more

-- Reading `n` bytes: they come off the front of the span, and the rest of `out` is as it was.
pub read_loop-span :
    (buf : List ℕ) (head n i : ℕ) (out : List ℕ)
    → n ≤ length out
    → read_loop buf head n i out ≡ span buf head i n ++ drop n out
unfolding read_loop
read_loop-span buf head zero i out h = refl
read_loop-span buf head (suc n) i [] h = absurd (omega arith)
read_loop-span buf head (suc n) i (x ∷ out) h =
    ap (λ s. get_or buf ((head + i) % buf_size) 0 ∷ s)
      (read_loop-span buf head n (i + 1) out (omega arith))

-- Moving the head forward by `n` drops `n` bytes.
pub span_shift :
    (buf : List ℕ) (head k i m : ℕ) → span buf ((head + k) % buf_size) i m ≡ span buf head (k + i) m
span_shift buf head k i zero = refl
span_shift buf head k i (suc m) =
    ap₂ ◌∷◌ (ap (λ j. get_or buf j 0) (omega arith))
      (span_shift buf head k (i + 1) m ∙ ap (λ j. span buf head j m) (omega arith))

pub take-span :
    (buf : List ℕ) (head i n m : ℕ) → n ≤ m → take n (span buf head i m) ≡ span buf head i n
take-span buf head i zero m h = refl
take-span buf head i (suc n) zero h = absurd (omega arith)
take-span buf head i (suc n) (suc m) h =
    ap (λ s. get_or buf ((head + i) % buf_size) 0 ∷ s)
      (take-span buf head (i + 1) n m (omega arith))

pub drop-span :
    (buf : List ℕ) (head i n m : ℕ)
    → n ≤ m
    → drop n (span buf head i m) ≡ span buf head (i + n) (m - n)
drop-span buf head i zero m h = ap₂ (span buf head) (omega arith) (omega arith)
drop-span buf head i (suc n) zero h = absurd (omega arith)
drop-span buf head i (suc n) (suc m) h =
    drop-span buf head (i + 1) n m (omega arith) ∙ ap₂ (span buf head) (omega arith) (omega arith)
