-- ===== src/Pmm/Bits.antt =====
-- The bits of the bitmap of kernel/src/mm/pmm.rs: what setting and clearing one does to each.
use anss_os.Common.{
  all_below, all_below_sound, bool_eq, bool_eq→eq, Bool, List, [], ap, arith, bit_and, bit_or,
  false, get_or, get_or-set_ne, get_or-set_self, if◌then◌else◌, length, length-set, ltb, not, refl,
  set, suc, true, zero, ℕ, ◌%◌, ◌&&◌, ◌*◌, ◌-◌, ◌/◌, ◌<◌, ◌==◌, ◌^◌, ◌∷◌, ◌≡◌, ◌≤◌,
}
use native.Mathlib.Decide.{ℕ_discrete}
use anss_os.Pmm.{Pmm, test, set_page, clear_page}

abbrev bit : ℕ → ℕ → Bool
bit b k = not (bit_and b (2 ^ k) == 0)

-- Setting bit `k` of a byte sets that bit alone, and gives a byte.
abbrev sets : ℕ → ℕ → ℕ → Bool
sets b k j =
    ltb (bit_or b (2 ^ k)) 256
    && bool_eq (bit (bit_or b (2 ^ k)) j) (if k == j then true else bit b j)

abbrev clears : ℕ → ℕ → ℕ → Bool
clears b k j =
    ltb (bit_and b (255 - 2 ^ k)) 256
    && bool_eq (bit (bit_and b (255 - 2 ^ k)) j) (if k == j then false else bit b j)

sets_table : all_below 256 (λ b. all_below 8 (λ k. all_below 8 (sets b k))) ≡ true
unfolding all_below
sets_table = refl

clears_table : all_below 256 (λ b. all_below 8 (λ k. all_below 8 (clears b k))) ≡ true
unfolding all_below
clears_table = refl

three_below :
    (f : ℕ → ℕ → ℕ → Bool) (b k j : ℕ)
    → all_below 256 (λ b. all_below 8 (λ k. all_below 8 (f b k))) ≡ true
    → b < 256
    → k < 8
    → j < 8
    → f b k j ≡ true
three_below f b k j h hb hk hj =
    all_below_sound 8 (f b k) j
      (all_below_sound 8 (λ k. all_below 8 (f b k)) k
        (all_below_sound 256 (λ b. all_below 8 (λ k. all_below 8 (f b k))) b h hb) hk)
      hj

-- Every byte of the bitmap is below 256.
abbrev pub AllBytes : List ℕ → Type 0
AllBytes [] = Unit
AllBytes (b ∷ bs) = (b < 256) × AllBytes bs

get_or-lt : (bs : List ℕ) (i : ℕ) → AllBytes bs → get_or bs i 0 < 256
get_or-lt [] i h = omega arith
get_or-lt (b ∷ bs) zero h = h.0
get_or-lt (b ∷ bs) (suc i) h = get_or-lt bs i h.1

set-AllBytes : (bs : List ℕ) (i v : ℕ) → v < 256 → AllBytes bs → AllBytes (set bs i v)
set-AllBytes [] i v hv h = tt
set-AllBytes (b ∷ bs) zero v hv h = (hv, h.1)
set-AllBytes (b ∷ bs) (suc i) v hv h = (h.0, set-AllBytes bs i v hv h.1)

-- The bitmap has a bit for every page.
pub record Covers (p : Pmm) : Type 0 where
  pub bytes : AllBytes p.bitmap
  pub enough : p.total_pages ≤ 8 * length p.bitmap

read_set :
    (bs : List ℕ) (i j v : ℕ)
    → i < length bs
    → get_or (set bs i v) j 0 ≡ (if i == j then v else get_or bs j 0)
read_set bs i j v h = elim (ℕ_discrete i j) [
  | yes e ↦ ground (arith, get_or-set_self bs i v 0 h, ap (λ k. get_or (set bs i v) k 0) e)
  | no ne ↦ ground (arith, get_or-set_ne bs i j v 0 ne)
]

module _ (p : Pmm) (page : ℕ) (c : Covers p) where
  abbrev here : ℕ
  here = get_or p.bitmap (page / 8) 0

  set_fact : (j : ℕ) → j < 8 → sets here (page % 8) j ≡ true
  set_fact j h =
      three_below sets here (page % 8) j sets_table (get_or-lt p.bitmap (page / 8) c.bytes)
        (omega arith) h

  clear_fact : (j : ℕ) → j < 8 → clears here (page % 8) j ≡ true
  clear_fact j h =
      three_below clears here (page % 8) j clears_table (get_or-lt p.bitmap (page / 8) c.bytes)
        (omega arith) h

  pub set_page-Covers : Covers (set_page p page)
  unfolding set_page
  set_page-Covers = record {
    bytes =
        set-AllBytes p.bitmap (page / 8) (bit_or here (2 ^ (page % 8)))
          (ground (arith, set_fact 0 (omega arith))) c.bytes;
    enough = omega (arith, c.enough, length-set p.bitmap (page / 8) (bit_or here (2 ^ (page % 8))));
  }

  pub clear_page-Covers : Covers (clear_page p page)
  unfolding clear_page
  clear_page-Covers = record {
    bytes =
        set-AllBytes p.bitmap (page / 8) (bit_and here (255 - 2 ^ (page % 8)))
          (ground (arith, clear_fact 0 (omega arith))) c.bytes;
    enough =
        omega
          (arith, c.enough, length-set p.bitmap (page / 8) (bit_and here (255 - 2 ^ (page % 8))));
  }

  -- `set` and `clear` change the bit of their page and no other.
  pub test-set_page :
      (q : ℕ)
      → page < p.total_pages
      → test (set_page p page) q ≡ (if page == q then true else test p q)
  unfolding test set_page
  test-set_page q h = ground (
    arith,
    read_set p.bitmap (page / 8) (q / 8) (bit_or here (2 ^ (page % 8))) (omega (arith, c.enough)),
    set_fact (q % 8) (omega arith),
    bool_eq→eq (bit (bit_or here (2 ^ (page % 8))) (q % 8))
        (if page % 8 == q % 8 then true else bit here (q % 8)),
    ap (λ k. get_or p.bitmap k 0) {x = page / 8} {y = q / 8},
  )

  pub test-clear_page :
      (q : ℕ)
      → page < p.total_pages
      → test (clear_page p page) q ≡ (if page == q then false else test p q)
  unfolding test clear_page
  test-clear_page q h = ground (
    arith,
    read_set p.bitmap (page / 8) (q / 8) (bit_and here (255 - 2 ^ (page % 8)))
        (omega (arith, c.enough)),
    clear_fact (q % 8) (omega arith),
    bool_eq→eq (bit (bit_and here (255 - 2 ^ (page % 8))) (q % 8))
        (if page % 8 == q % 8 then false else bit here (q % 8)),
    ap (λ k. get_or p.bitmap k 0) {x = page / 8} {y = q / 8},
  )
