-- ===== src/Crc/Tests.antt =====
-- kernel/src/util/crc32.rs at a concrete input.
use anss_os.Common.{arith, codes, refl, ◌-◌, ◌^◌, ◌≡◌}
use anss_os.Crc.{crc_round, rounds, entries, table, fold_bytes, crc32}
use anss_os.Crc.Shift.{bitwise_fold, crc32_lem}

-- The check value of this checksum: that of "123456789".
check_value : crc32 (codes "123456789") ≡ 0xcbf43926
unfolding crc32 fold_bytes table entries rounds crc_round
check_value = refl

crc32_lem_example : crc32 (codes "abc") ≡ 2 ^ 32 - 1 - bitwise_fold (2 ^ 32 - 1) (codes "abc")
crc32_lem_example = crc32_lem (codes "abc") (omega arith, (omega arith, (omega arith, tt)))
