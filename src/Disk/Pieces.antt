-- ===== src/Disk/Pieces.antt =====
-- Which sectors a read or a write of kernel/src/drivers/block.rs asks its driver for.
use native.Mathlib.Decide.{dec_lt}
use anss_os.Common.{
  Bool, Bytes, List, [], ap, append-nil, append_assoc, arith, drop, length, length-append,
  length-drop, length-take, min, refl, some, subst, suc, sym, take, take-append-drop, true, zero, ℕ,
  ◌*◌, ◌++◌, ◌+◌, ◌-◌, ◌/◌, ◌<◌, ◌∙◌, ◌∷◌, ◌≡◌, ◌≤◌,
}
use native.Mathlib.Nat.{le-div_iff_mul-le, div-lt_iff_lt-mul}
use anss_os.Disk.Block.{Driver, BlockDevice, in_range, write_loop, write}

-- One call of a driver: its first sector, its count, and the bytes written.
pub record Call : Type 0 where
  pub lba : ℕ
  pub count : ℕ
  pub bytes : Bytes

-- A driver that keeps the calls, oldest first, and succeeds.
pub recording : Driver (List Call)
recording = record {
  read = λ s lba count. (s ++ record { lba = lba; count = count; bytes = [] } ∷ [], true, []);
  write = λ s lba count bytes. (s ++ record { lba = lba; count = count; bytes = bytes } ∷ [], true);
}

-- The calls lie one after the other from sector `lba` on, each of some sectors but at most the
-- device's, and up to sector `end`; the bytes are those of so many sectors.
pub data Tiles (d : BlockDevice) : ℕ → ℕ → List Call → Bytes → Type 0 where
  done : (lba : ℕ) → Tiles d lba lba [] []
  piece :
      {lba end : ℕ} {calls : List Call} {rest : Bytes} (c : Call)
      → c.lba ≡ lba
      → 0 < c.count
      → c.count ≤ d.max_sectors
      → length c.bytes ≡ c.count * d.sector_size
      → Tiles d (lba + c.count) end calls rest
      → Tiles d lba end (c ∷ calls) (c.bytes ++ rest)

mul_le : (a b c : ℕ) → a ≤ b → a * c ≤ b * c
mul_le a b c h = grind arith

min-mul : (a b c : ℕ) → min (a * c) (b * c) ≡ min a b * c
min-mul a b c = elim (dec_lt a b) [
  | yes less ↦
      let m : a * c ≤ b * c = mul_le a b c (omega arith) in
      let e : min a b ≡ a = omega arith in rw e (omega (arith, m))
  | no more ↦
      let m : b * c ≤ a * c = mul_le b a c (omega arith) in
      let e : min a b ≡ b = omega arith in rw e (omega (arith, m))
]

split_le : (k n c : ℕ) → n ≤ k → k * c ≡ n * c + (k - n) * c
split_le k n c h = omega (arith, ap (λ (t : ℕ). t * c) whole)
  where
    whole : k ≡ n + (k - n)
    whole = omega arith

range_end :
    (d : BlockDevice) (lba count : ℕ) → in_range d lba count ≡ true → lba + count ≤ d.sector_count
unfolding in_range
range_end d lba count h = ground arith

module _ (d : BlockDevice) (sector_pos : 0 < d.sector_size) (some_sectors : 0 < d.max_sectors) where
  abbrev chunk_of : Bytes → Bytes
  chunk_of = take (d.max_sectors * d.sector_size)

  mul-div_sector : (n : ℕ) → n * d.sector_size / d.sector_size ≡ n
  mul-div_sector n = omega (
    arith,
    (le-div_iff_mul-le {k = d.sector_size} {x = n} {y = n * d.sector_size} sector_pos).1
        (omega arith),
    (div-lt_iff_lt-mul {k = d.sector_size} {x = n * d.sector_size} {y = n + 1} sector_pos).1
        (omega arith),
  )

  -- The loop's calls for a buffer of `k` sectors.
  abbrev Sent : List Call → ℕ → ℕ → Bytes → List Call × Bool → Type 0
  Sent s lba end buf r = (calls : List Call) × (r ≡ (s ++ calls, true)) × Tiles d lba end calls buf

  chunk_length :
      (buf : Bytes) (k : ℕ)
      → length buf ≡ k * d.sector_size
      → length (chunk_of buf) ≡ min d.max_sectors k * d.sector_size
  chunk_length buf k e =
      length-take (d.max_sectors * d.sector_size) buf
      ∙ ap (min (d.max_sectors * d.sector_size)) e
      ∙ min-mul d.max_sectors k d.sector_size

  chunk_rest :
      (buf : Bytes) (k : ℕ)
      → length buf ≡ k * d.sector_size
      → length (drop (d.max_sectors * d.sector_size) buf)
        ≡ (k - min d.max_sectors k) * d.sector_size
  chunk_rest buf k e = omega (
    arith,
    length-drop (d.max_sectors * d.sector_size) buf,
    ap length (take-append-drop (d.max_sectors * d.sector_size) buf),
    length-append (chunk_of buf) (drop (d.max_sectors * d.sector_size) buf),
    chunk_length buf k e,
    split_le k (min d.max_sectors k) d.sector_size (omega arith),
  )

  chunk_pos : 0 < d.max_sectors * d.sector_size
  chunk_pos = grind arith

  zero_sectors : (k : ℕ) → 0 ≡ k * d.sector_size → k ≡ 0
  zero_sectors zero e = refl
  zero_sectors (suc k) e = absurd (omega arith)

  sectors_left : (k n : ℕ) → suc n ≡ k * d.sector_size → 0 < k
  sectors_left zero n e = absurd (omega arith)
  sectors_left (suc k) n e = omega arith

  write_loop_calls :
      (s : List Call) (lba end k : ℕ)
      → 0 ≡ k * d.sector_size
      → end ≡ lba + k
      → Sent s lba end [] (s, true)
  write_loop_calls s lba end k e last = (
    [],
    ap (λ t. (t, true)) (sym (append-nil s)),
    subst (λ t. Tiles d lba t [] []) (omega (arith, zero_sectors k e)) (done lba),
  )

  write_loop-Sent :
      (fuel : ℕ) (s : List Call) (lba end k : ℕ) (buf : Bytes)
      → length buf ≡ k * d.sector_size
      → length buf ≤ fuel
      → end ≡ lba + k
      → Sent s lba end buf (write_loop recording d fuel s lba buf)
  unfolding write_loop recording
  write_loop-Sent zero s lba end k [] e h last = write_loop_calls s lba end k e last
  write_loop-Sent zero s lba end k (b ∷ buf) e h last = absurd (omega arith)
  write_loop-Sent (suc fuel) s lba end k [] e h last = write_loop_calls s lba end k e last
  write_loop-Sent (suc fuel) s lba end k (b ∷ buf) e h last =
      let whole : Bytes = b ∷ buf in
      let n = length (chunk_of whole) / d.sector_size in
      let c : Call = record { lba = lba; count = n; bytes = chunk_of whole } in
      let next = drop (d.max_sectors * d.sector_size) whole in
      let count : n ≡ min d.max_sectors k =
        ap (λ t. t / d.sector_size) (chunk_length whole k e)
        ∙ mul-div_sector (min d.max_sectors k) in
      let pos : 0 < n = omega (arith, count, sectors_left k (length buf) e) in
      let sized : length (chunk_of whole) ≡ n * d.sector_size =
        chunk_length whole k e ∙ ap (λ t. t * d.sector_size) (sym count) in
      let (calls, ran, tiles) =
        write_loop-Sent fuel (s ++ c ∷ []) (lba + n) end (k - min d.max_sectors k) next
          (chunk_rest whole k e)
          (omega (arith, length-drop (d.max_sectors * d.sector_size) whole, chunk_pos))
          (omega (arith, count)) in
      (
        c ∷ calls,
        ran ∙ ap (λ t. (t, true)) (append_assoc s (c ∷ []) calls),
        subst (Tiles d lba end (c ∷ calls)) (take-append-drop (d.max_sectors * d.sector_size) whole)
            (piece c refl pos (omega (arith, count)) sized tiles),
      )

  -- A write of `count` sectors that lies on the disk, with writes unlocked, reaches a driver that does
  -- not fail as calls one after the other, which together write exactly those sectors with the
  -- buffer's bytes, each at most the device's `max_sectors` long; no call goes past the disk's end.
  pub write-Tiles :
      (lba count : ℕ) (buf : Bytes)
      → in_range d lba count ≡ true
      → count * d.sector_size ≤ length buf
      → (calls : List Call) × (write recording d true [] lba count buf ≡ some (calls, true))
        × Tiles d lba (lba + count) calls (take (count * d.sector_size) buf)
        × (lba + count ≤ d.sector_count)
  unfolding write
  write-Tiles lba count buf inside h =
      let taken = take (count * d.sector_size) buf in
      let sized : length taken ≡ count * d.sector_size =
        omega (arith, length-take (count * d.sector_size) buf) in
      let (calls, ran, tiles) =
        write_loop-Sent (length taken) [] lba (lba + count) count taken sized (omega arith) refl in
      (calls, ground (arith, chunk_pos, ran), tiles, range_end d lba count inside)
