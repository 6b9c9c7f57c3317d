-- ===== src/Pipe/Refs.antt =====
-- The reference counts of kernel/src/exec/pipe.rs: when the last close frees a pipe.
use anss_os.Common.{
  ℕ, suc, ◌+◌, ◌-◌, ◌≤◌, ◌<◌, ◌^◌, ◌≡◌, refl, ◌&&◌, Option, none, some, List, [], ◌∷◌, arith, ◌==◌,
  if◌then◌else◌, dec_i32,
}
use anss_os.Pipe.{Pipe, close_read, close_write}

pub data End : Type 0 where
  read_end write_end : End

-- One `close_read` or `close_write`.
abbrev pub close : End → Pipe → Option Pipe
close read_end p = close_read p
close write_end p = close_write p

-- Where a run of closes leaves the pipe: `dangling` is a close after the one that freed it.
pub data Fate : Type 0 where
  live : Pipe → Fate
  freed dangling : Fate

abbrev after_free : List End → Fate
after_free [] = freed
after_free (c ∷ cs) = dangling

pub close_all : Pipe → List End → Fate
close_all p [] = live p
close_all p (c ∷ cs) = elim (close c p) [ none ↦ after_free cs | some p' ↦ close_all p' cs ]

abbrev pub count_reads : List End → ℕ
count_reads [] = 0
count_reads (read_end ∷ cs) = suc (count_reads cs)
count_reads (write_end ∷ cs) = count_reads cs

abbrev pub count_writes : List End → ℕ
count_writes [] = 0
count_writes (read_end ∷ cs) = count_writes cs
count_writes (write_end ∷ cs) = suc (count_writes cs)

no_closes : (cs : List End) → count_reads cs ≡ 0 → count_writes cs ≡ 0 → after_free cs ≡ freed
no_closes [] r w = refl
no_closes (read_end ∷ cs) r w = absurd (omega arith)
no_closes (write_end ∷ cs) r w = absurd (omega arith)

-- The pipe is freed by the close of its last reference and by no earlier one, in whatever order the
-- ends are closed, and no close follows that one: for at most as many closes of each end as it has
-- references, both counts being positive `i32`s or zero and not both zero.
pub close_all_lem :
    (cs : List End) (p : Pipe)
    → p.read_refs < 2 ^ 31
    → p.write_refs < 2 ^ 31
    → 0 < p.read_refs + p.write_refs
    → count_reads cs ≤ p.read_refs
    → count_writes cs ≤ p.write_refs
    → close_all p cs ≡ (
        if p.read_refs == count_reads cs && p.write_refs == count_writes cs
        then freed
        else live (record p {
          read_refs = p.read_refs - count_reads cs;
          write_refs = p.write_refs - count_writes cs;
        }))
unfolding close_all close_read close_write
close_all_lem [] p hr hw pos cr cw = ground arith
close_all_lem (read_end ∷ cs) p hr hw pos cr cw =
    ground (arith, no_closes cs, close_all_lem cs (record p { read_refs = dec_i32 p.read_refs }))
close_all_lem (write_end ∷ cs) p hr hw pos cr cw =
    ground (arith, no_closes cs, close_all_lem cs (record p { write_refs = dec_i32 p.write_refs }))
