-- ===== src/Pipe/Ring.antt =====
-- `write` and `read` of kernel/src/exec/pipe.rs against the queue of the bytes in the pipe.
use anss_os.Common.{
  ℕ, ◌+◌, ◌-◌, ◌%◌, ◌≤◌, ◌<◌, min, ◌≡◌, refl, ap, ◌≢◌, none, some, List, [], ◌++◌, arith, length,
  take, drop, length-take, length-replicate, if◌then◌else◌, is_positive_i32,
}
use anss_os.Pipe.{Pipe, buf_size, create, write, read}
use anss_os.Pipe.Span.{
  span, length-span, length-write_loop, span-write_loop, read_loop-span, span_shift, take-span,
  drop-span,
}

-- What the methods keep true of the ring: the array has its length and the indices lie in it.
pub record IsValid (p : Pipe) : Type 0 where
  pub sized : length p.buf ≡ buf_size
  pub head_in : p.head < buf_size
  pub count_in : p.count ≤ buf_size

-- The bytes in the pipe, oldest first.
abbrev pub contents : Pipe → List ℕ
contents p = span p.buf p.head 0 p.count

pub length-contents : (p : Pipe) → length (contents p) ≡ p.count
length-contents p = length-span p.buf p.head 0 p.count

-- A new pipe is valid and empty.
pub create-IsValid : IsValid create × (contents create ≡ [])
unfolding create
create-IsValid = (
  record {
    sized = length-replicate {A = ℕ} buf_size 0;
    head_in = omega arith;
    count_in = omega arith;
  },
  refl,
)

-- What a write takes: as much as there is room for.
abbrev pub accepted : Pipe → List ℕ → List ℕ
accepted p src = take (min (length src) (buf_size - p.count)) src

-- While a read end is referenced, `write` never blocks: it appends the longest prefix that fits,
-- in order, returns its length, keeps the pipe valid and leaves the counts of references.
pub write_appends :
    (p : Pipe) (src : List ℕ)
    → IsValid p
    → p.read_refs ≢ 0
    → IsValid (write p src).0
      × (contents (write p src).0 ≡ contents p ++ accepted p src)
      × ((write p src).1 ≡ some (min (length src) (buf_size - p.count)))
      × ((write p src).0.read_refs ≡ p.read_refs)
      × ((write p src).0.write_refs ≡ p.write_refs)
unfolding write
write_appends p src v r = ground (
  arith,
  length-take (min (length src) (buf_size - p.count)) src,
  length-write_loop (accepted p src) 0 ((p.head + p.count) % buf_size) p.buf,
  span-write_loop (accepted p src) p.head p.count 0
      (p.count + min (length src) (buf_size - p.count)) p.buf,
  ap (span p.buf p.head 0) end,
)
  where
    end : p.count + 0 ≡ p.count
    end = omega arith

-- With every read end gone a write is refused and changes nothing.
pub write_refused : (p : Pipe) (src : List ℕ) → p.read_refs ≡ 0 → write p src ≡ (p, none)
unfolding write
write_refused p src r = ground arith

-- `read` on a pipe with bytes takes the oldest ones, as many as there are and `out` has room for,
-- puts them at the front of `out` in order, and keeps the pipe valid.
pub read_takes :
    (p : Pipe) (out : List ℕ)
    → IsValid p
    → p.count ≢ 0
    → let n = min (length out) p.count in
      IsValid (read p out).0
      × (contents (read p out).0 ≡ drop n (contents p))
      × ((read p out).1 ≡ take n (contents p) ++ drop n out)
      × ((read p out).2 ≡ some n)
unfolding read
read_takes p out v ne = ground (
  arith,
  read_loop-span p.buf p.head (min (length out) p.count) 0 out,
  take-span p.buf p.head 0 (min (length out) p.count) p.count,
  drop-span p.buf p.head 0 (min (length out) p.count) p.count,
  span_shift p.buf p.head (min (length out) p.count) 0 (p.count - min (length out) p.count),
  ap (λ k. span p.buf p.head k (p.count - min (length out) p.count)) zero_right,
)
  where
    zero_right : min (length out) p.count + 0 ≡ 0 + min (length out) p.count
    zero_right = omega arith

-- `read` on an empty pipe changes nothing: it says "try again" while a write end is referenced,
-- and end of file otherwise.
pub read_empty :
    (p : Pipe) (out : List ℕ)
    → p.count ≡ 0
    → read p out ≡ (p, out, (if is_positive_i32 p.write_refs then some 0 else none))
unfolding read
read_empty p out e = ground arith
