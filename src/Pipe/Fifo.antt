-- ===== src/Pipe/Fifo.antt =====
-- Any sequence of writes and reads of one pipe, kernel/src/exec/pipe.rs.
use anss_os.Common.{
  ℕ, min, ◌≡◌, sym, ap, ◌∙◌, none, some, List, [], ◌∷◌, ◌++◌, append-nil, append_assoc, arith,
  length, take, drop, length-take, take-append-drop, take-append_exact,
}
use native.Mathlib.Decide.{ℕ_discrete}
use anss_os.Pipe.{Pipe, write, read}
use anss_os.Pipe.Ring.{
  IsValid, contents, length-contents, write_appends, write_refused, read_takes, read_empty,
}

-- What a program does with a pipe: writes some bytes, or reads into a buffer of its own.
pub data Op : Type 0 where
  put : List ℕ → Op
  get : List ℕ → Op

abbrev pub step : Pipe → Op → Pipe
step p (put src) = (write p src).0
step p (get out) = (read p out).0

-- The bytes that a call takes in and that it hands out, by the counts it returns.
abbrev pub taken : Pipe → Op → List ℕ
taken p (put src) = elim (write p src).1 [ none ↦ [] | some n ↦ take n src ]
taken p (get out) = []

abbrev pub given : Pipe → Op → List ℕ
given p (put src) = []
given p (get out) = elim (read p out).2 [ none ↦ [] | some n ↦ take n (read p out).1 ]

pub run : Pipe → List Op → Pipe
run p [] = p
run p (o ∷ os) = run (step p o) os

pub all_taken : Pipe → List Op → List ℕ
all_taken p [] = []
all_taken p (o ∷ os) = taken p o ++ all_taken (step p o) os

pub all_given : Pipe → List Op → List ℕ
all_given p [] = []
all_given p (o ∷ os) = given p o ++ all_given (step p o) os

step-fifo :
    (p : Pipe) (o : Op)
    → IsValid p
    → IsValid (step p o) × (contents p ++ taken p o ≡ given p o ++ contents (step p o))
step-fifo p (put src) v = elim (ℕ_discrete p.read_refs 0) [
  | yes gone ↦ ground (arith, write_refused p src gone, append-nil (contents p))
  | no open_end ↦ ground (arith, write_appends p src v open_end)
]
step-fifo p (get out) v = elim (ℕ_discrete p.count 0) [
  | yes drained ↦ ground (arith, read_empty p out drained, append-nil (contents p))
  | no bytes ↦ ground (
    arith,
    read_takes p out v bytes,
    append-nil (contents p),
    take-append-drop (min (length out) p.count) (contents p),
    length-contents p,
    length-take (min (length out) p.count) (contents p),
    take-append_exact (min (length out) p.count) (take (min (length out) p.count) (contents p))
        (drop (min (length out) p.count) out),
  )
]

-- Whatever sequence of writes and reads a valid pipe goes through, it stays valid, and the bytes
-- that the calls took in come out once each and in order: what it held and then took in is what it
-- handed out and then holds.
pub run_fifo :
    (os : List Op) (p : Pipe)
    → IsValid p
    → IsValid (run p os) × (contents p ++ all_taken p os ≡ all_given p os ++ contents (run p os))
unfolding run all_taken all_given
run_fifo [] p v = (v, append-nil (contents p))
run_fifo (o ∷ os) p v =
    let first = step-fifo p o v in
    let rest = run_fifo os (step p o) first.0 in
    (
      rest.0,
      sym (append_assoc (contents p) (taken p o) _)
          ∙ ap (λ xs. xs ++ all_taken (step p o) os) first.1
          ∙ append_assoc (given p o) (contents (step p o)) _
          ∙ ap (λ xs. given p o ++ xs) rest.1
          ∙ sym (append_assoc (given p o) (all_given (step p o) os) _),
    )
