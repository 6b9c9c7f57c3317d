-- ===== src/Pipe.antt =====
-- kernel/src/exec/pipe.rs: the byte ring under pipe() and use_as_stdio().
pub mod Span
pub mod Ring
pub mod Fifo
pub mod Refs
mod Tests
use anss_os.Common.{
  ℕ, zero, suc, ◌+◌, ◌-◌, ◌%◌, min, Bool, true, false, ◌&&◌, Option, none, some, List, [], ◌∷◌,
  length, get_or, set, take, replicate, ◌==◌, if◌then◌else◌, dec_i32, is_positive_i32,
}

abbrev pub buf_size : ℕ
buf_size = 4096

-- `struct Pipe`. A byte is only moved here, so it is any number. The counts are `i32`s.
pub record Pipe : Type 0 where
  pub buf : List ℕ
  pub head : ℕ
  pub count : ℕ
  pub read_refs : ℕ
  pub write_refs : ℕ

pub create : Pipe
create = record { buf = replicate buf_size 0; head = 0; count = 0; read_refs = 1; write_refs = 1 }

-- The loop of `write`, over `data[..n]` from index `i` on.
pub write_loop : List ℕ → ℕ → ℕ → List ℕ → List ℕ
write_loop [] i tail buf = buf
write_loop (b ∷ bs) i tail buf = write_loop bs (i + 1) tail (set buf ((tail + i) % buf_size) b)

-- The pipe after the call, and the byte count; `none` when no read end is left.
pub write : Pipe → List ℕ → Pipe × Option ℕ
write p src =
    let n = min (length src) (buf_size - p.count) in
    let tail = (p.head + p.count) % buf_size in
    if p.read_refs == 0
    then (p, none)
    else (record p { buf = write_loop (take n src) 0 tail p.buf; count = p.count + n }, some n)

-- The loop of `read`: the first `n` places of `out`, from index `i` on.
pub read_loop : List ℕ → ℕ → ℕ → ℕ → List ℕ → List ℕ
read_loop buf head zero i out = out
read_loop buf head (suc n) i [] = []
read_loop buf head (suc n) i (_ ∷ out) =
    get_or buf ((head + i) % buf_size) 0 ∷ read_loop buf head n (i + 1) out

-- The pipe after the call, what `out` holds after it, and the result.
pub read : Pipe → List ℕ → Pipe × List ℕ × Option ℕ
read p out =
    let n = min (length out) p.count in
    if p.count == 0 then (p, out, (if is_positive_i32 p.write_refs then some 0 else none)) else (
      record p { head = (p.head + n) % buf_size; count = p.count - n },
      read_loop p.buf p.head n 0 out,
      some n,
    )

-- `none` when the pipe is freed.
free_if_unused : Pipe → Option Pipe
free_if_unused p = if p.read_refs == 0 && p.write_refs == 0 then none else some p

pub close_read : Pipe → Option Pipe
unfolding free_if_unused
close_read p = free_if_unused (record p { read_refs = dec_i32 p.read_refs })

pub close_write : Pipe → Option Pipe
unfolding free_if_unused
close_write p = free_if_unused (record p { write_refs = dec_i32 p.write_refs })
