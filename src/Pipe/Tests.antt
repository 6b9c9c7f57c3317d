-- ===== src/Pipe/Tests.antt =====
-- The pipe (kernel/src/exec/pipe.rs) at concrete inputs.
use anss_os.Common.{
  List, [], arith, drop, if◌then◌else◌, length-replicate, min, replicate, some, take, ℕ, ◌&&◌, ◌++◌,
  ◌-◌, ◌==◌, ◌∷◌, ◌≡◌, ◌≢◌,
}
use anss_os.Pipe.{Pipe, create, write, read, buf_size}
use anss_os.Pipe.Ring.{IsValid, contents, accepted, create-IsValid, write_appends, read_takes}
use anss_os.Pipe.Fifo.{Op, put, get, run, all_taken, all_given, run_fifo}
use anss_os.Pipe.Refs.{read_end, write_end, close_all, freed, live, close_all_lem}

abbrev three_calls : List Op
three_calls = put (1 ∷ 2 ∷ 3 ∷ []) ∷ get (0 ∷ 0 ∷ []) ∷ put (4 ∷ []) ∷ []

run_fifo_example :
    IsValid (run create three_calls)
    × (contents create ++ all_taken create three_calls
        ≡ all_given create three_calls ++ contents (run create three_calls))
run_fifo_example = run_fifo three_calls create create-IsValid.0

open_for_reading : create.read_refs ≢ 0
unfolding create
open_for_reading = omega arith

write_appends_example :
    IsValid (write create (7 ∷ 8 ∷ [])).0
    × (contents (write create (7 ∷ 8 ∷ [])).0 ≡ contents create ++ accepted create (7 ∷ 8 ∷ []))
    × ((write create (7 ∷ 8 ∷ [])).1 ≡ some (min 2 (buf_size - create.count)))
    × ((write create (7 ∷ 8 ∷ [])).0.read_refs ≡ create.read_refs)
    × ((write create (7 ∷ 8 ∷ [])).0.write_refs ≡ create.write_refs)
write_appends_example = write_appends create (7 ∷ 8 ∷ []) create-IsValid.0 open_for_reading

abbrev two_bytes : Pipe
two_bytes = record {
  buf = replicate buf_size 9;
  head = 4095;
  count = 2;
  read_refs = 1;
  write_refs = 1;
}

two_bytes-IsValid : IsValid two_bytes
two_bytes-IsValid = record {
  sized = length-replicate {A = ℕ} buf_size 9;
  head_in = omega arith;
  count_in = omega arith;
}

read_takes_example :
    IsValid (read two_bytes (0 ∷ [])).0
    × (contents (read two_bytes (0 ∷ [])).0 ≡ drop (min 1 2) (contents two_bytes))
    × ((read two_bytes (0 ∷ [])).1 ≡ take (min 1 2) (contents two_bytes) ++ drop (min 1 2) (0 ∷ []))
    × ((read two_bytes (0 ∷ [])).2 ≡ some (min 1 2))
read_takes_example = read_takes two_bytes (0 ∷ []) two_bytes-IsValid (omega arith)

close_all_lem_example : close_all two_bytes (write_end ∷ read_end ∷ []) ≡ (
    if 1 == 1 && 1 == 1
    then freed
    else live (record two_bytes { read_refs = 1 - 1; write_refs = 1 - 1 }))
close_all_lem_example =
    close_all_lem (write_end ∷ read_end ∷ []) two_bytes (omega arith) (omega arith) (omega arith)
      (omega arith) (omega arith)
