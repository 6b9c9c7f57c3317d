-- ===== src/Crc.antt =====
-- kernel/src/util/crc32.rs: the checksum of partition tables. A `u32` is a number below 2 ^ 32.
pub mod Xor
pub mod Shift
mod Tests
use anss_os.Common.{
  ==_iff, Allows, Allows-Unit, Allows-bind, Bool, Bool-cases, Bytes, Ensures, Ensures-bind,
  Ensures-mono, Ensures-some, List, Option, Option-cases, [], add_u16, all_below, all_below_sound,
  any_below, any_below_sound, ap, append-nil, append_assoc, ap₂, arith, bit_and, bit_or, bit_xor,
  bool_eq, bool_eq→eq, bytes_eq, bytes_eq→eq, c_string, check, codes, contains_byte, dec_i32, drop,
  drop-all, drop-append_exact, false, floor_char_boundary, floor_from, get_elem?, get_elem?-eq-none,
  get_elem?-set, get_or, get_or-set_ne, get_or-set_self, if◌then◌else◌, inc_i32, inl, inr,
  insert_at, is_char_boundary, is_empty, is_empty_of_ne, is_positive_i32, leb, leb→le, length,
  length-append, length-drop, length-insert_at, length-ne_zero, length-remove, length-replicate,
  length-set, length-take, ltb, ltb→lt, map, max, min, none, not, refl, remove, replicate, rfind,
  rfind_from, saturating_add_u16, saturating_mul_u16, set, some, split_on, starts_char,
  strip_prefix, subst, suc, sym, take, take-append-drop, take-append_exact, trim_end, true, u16_max,
  zero, ℕ, ◌%◌, ◌&&◌, ◌*◌, ◌++◌, ◌+◌, ◌-◌, ◌/◌, ◌<◌, ◌==◌, ◌>>=◌, ◌^◌, ◌||◌, ◌↔◌, ◌∙◌, ◌∷◌, ◌≡◌,
  ◌≢◌, ◌≤◌, ◌⊎◌,
}

-- One round of the inner loop of the table.
unfoldable pub crc_round : ℕ → ℕ
crc_round c = if not (bit_and c 1 == 0) then bit_xor 0xedb88320 (c / 2) else c / 2

unfoldable pub rounds : ℕ → ℕ → ℕ
rounds zero c = c
rounds (suc k) c = rounds k (crc_round c)

-- The entries of the table from `i` on.
unfoldable pub entries : ℕ → ℕ → List ℕ
entries zero i = []
entries (suc n) i = rounds 8 i ∷ entries n (i + 1)

unfoldable pub table : List ℕ
table = entries 256 0

unfoldable pub fold_bytes : ℕ → Bytes → ℕ
fold_bytes c [] = c
fold_bytes c (b ∷ bs) =
    fold_bytes (bit_xor (get_or table (bit_and (bit_xor c b) 0xff) 0) (c / 256)) bs

unfoldable pub crc32 : Bytes → ℕ
crc32 bytes = 2 ^ 32 - 1 - fold_bytes (2 ^ 32 - 1) bytes
