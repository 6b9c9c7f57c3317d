-- ===== src/Disk/Tests.antt =====
-- The disks (kernel/src/drivers/block.rs) at concrete inputs.
use anss_os.Common.{Bytes, List, [], arith, codes, refl, some, take, true, ◌*◌, ◌+◌, ◌∷◌, ◌≡◌, ◌≤◌}
use anss_os.Disk.Block.{BlockDevice, in_range, write}
use anss_os.Disk.Pieces.{Call, recording, Tiles, write-Tiles}

-- Four sectors of two bytes, two at a time.
abbrev little : BlockDevice
little = record { name = codes "d"; model = []; sector_size = 2; sector_count = 4; max_sectors = 2 }

abbrev six_bytes : Bytes
six_bytes = 1 ∷ 2 ∷ 3 ∷ 4 ∷ 5 ∷ 6 ∷ []

little-in_range : in_range little 1 3 ≡ true
unfolding in_range
little-in_range = refl

write-Tiles_example :
    (calls : List Call) × (write recording little true [] 1 3 six_bytes ≡ some (calls, true))
    × Tiles little 1 (1 + 3) calls (take (3 * 2) six_bytes)
    × (1 + 3 ≤ 4)
write-Tiles_example =
    write-Tiles little (omega arith) (omega arith) 1 3 six_bytes little-in_range (omega arith)
