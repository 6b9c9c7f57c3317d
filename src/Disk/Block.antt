-- ===== src/Disk/Block.antt =====
-- kernel/src/drivers/block.rs: the registry of disks, and their bounds-checked, split reads and writes.
use anss_os.Common.{
  Bool, Bytes, List, Option, [], bytes_eq, check, drop, false, if◌then◌else◌, is_empty, leb, length,
  ltb, min, none, not, some, suc, take, true, zero, ℕ, ◌&&◌, ◌*◌, ◌++◌, ◌+◌, ◌-◌, ◌/◌, ◌==◌, ◌∷◌,
}

-- `trait BlockDriver` over the state `S` of the hardware: a read of `count` sectors gives the bytes that
-- it put into the buffer; the `Bool` is the call's own result.
pub record Driver (S : Type 0) : Type 0 where
  pub read : S → ℕ → ℕ → S × Bool × Bytes
  pub write : S → ℕ → ℕ → Bytes → S × Bool

-- `struct BlockDevice`, less its name and model.
pub record BlockDevice : Type 0 where
  pub name : Bytes
  pub model : Bytes
  pub sector_size : ℕ
  pub sector_count : ℕ
  pub max_sectors : ℕ

abbrev pub max_devices : ℕ
max_devices = 16

pub record Registry : Type 0 where
  pub devices : List BlockDevice
  pub writes_allowed : Bool

-- The registry after the call, and the new disk's index.
unfoldable pub register : Registry → BlockDevice → Registry × Option ℕ
register r dev =
    if length r.devices == max_devices
    then (r, none)
    else (record r { devices = r.devices ++ dev ∷ [] }, some (length r.devices))

-- The index of the first disk of that name, from index `i` on.
unfoldable pub find_from : ℕ → List BlockDevice → Bytes → Option ℕ
find_from i [] name = none
find_from i (d ∷ ds) name = if bytes_eq d.name name then some i else find_from (i + 1) ds name

unfoldable pub find : Registry → Bytes → Option ℕ
find r name = find_from 0 r.devices name

-- `count <= sector_count - lba` is read only where `lba < sector_count`.
unfoldable pub in_range : BlockDevice → ℕ → ℕ → Bool
in_range d lba count = ltb 0 count && ltb lba d.sector_count && leb count (d.sector_count - lba)

module _ {S : Type 0} (driver : Driver S) (d : BlockDevice) where
  -- The loop over `chunks_mut(max_sectors * sector)` of what is left of the buffer, from sector `lba`
  -- on: `bytes` of it are left. The fuel is the number of bytes. The bytes read so far are `out`.
  unfoldable pub read_loop : ℕ → S → ℕ → ℕ → Bytes → S × Bool × Bytes
  read_loop zero s lba left out = (s, true, out)
  read_loop (suc fuel) s lba left out =
      let len = min left (d.max_sectors * d.sector_size) in
      let n = len / d.sector_size in
      let (s1, ok, got) = driver.read s lba n in
      let rest = read_loop fuel s1 (lba + n) (left - len) (out ++ got) in
      if left == 0 then (s, true, out) else if ok then rest else (s1, false, out ++ got)

  -- A chunk size of 0 makes `chunks_mut` panic.
  unfoldable pub read : S → ℕ → ℕ → Option (S × Bool × Bytes)
  read s lba count =
      if not (in_range d lba count)
      then some (s, false, [])
      else check (ltb 0 (d.max_sectors * d.sector_size))
          (read_loop (count * d.sector_size) s lba (count * d.sector_size) [])

  unfoldable pub write_loop : ℕ → S → ℕ → Bytes → S × Bool
  write_loop zero s lba buf = (s, true)
  write_loop (suc fuel) s lba buf =
      let chunk = take (d.max_sectors * d.sector_size) buf in
      let n = length chunk / d.sector_size in
      let (s1, ok) = driver.write s lba n chunk in
      let rest = write_loop fuel s1 (lba + n) (drop (d.max_sectors * d.sector_size) buf) in
      if is_empty buf then (s, true) else if ok then rest else (s1, false)

  -- `allowed` is `writes_allowed()`; the slice `buf[..count * sector]` panics on a shorter buffer.
  unfoldable pub write : Bool → S → ℕ → ℕ → Bytes → Option (S × Bool)
  write allowed s lba count buf =
      if not allowed
      then some (s, false)
      else if not (in_range d lba count)
      then some (s, false)
      else check (ltb 0 (d.max_sectors * d.sector_size) && leb (count * d.sector_size) (length buf))
          (write_loop (length (take (count * d.sector_size) buf)) s lba
            (take (count * d.sector_size) buf))
