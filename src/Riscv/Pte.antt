-- ===== src/Riscv/Pte.antt =====
-- Page table entries: address and flags packed into a word.
use csci5103_lab.Common.{
  ℕ, ◌+◌, ◌*◌, ◌/◌, ◌%◌, ◌^◌, ◌<◌, ◌≡◌, sym, ap, ◌∙◌, arith, true, bit_or, ◌==◌,
}
use csci5103_lab.Common.Bits.{
  bit_and-one, bit_and_two, bit_and_four, bit_and_eight, bit_and_sixteen, bit_or_fields, bit_or-one,
}
use csci5103_lab.Riscv.{
  pgsize, pte_v, pte_r, pte_w, pte_x, pte_u, has, pa_to_pte, pte_to_pa, pte_flags,
}

-- A flag test is a digit of the entry.
pub has-v : (pte : ℕ) → has pte pte_v ≡ (pte % 2 == 1)
unfolding has
has-v pte = ground (arith, bit_and-one pte)

pub has-r : (pte : ℕ) → has pte pte_r ≡ (pte / 2 % 2 == 1)
unfolding has
has-r pte = ground (arith, bit_and_two pte)

pub has-w : (pte : ℕ) → has pte pte_w ≡ (pte / 4 % 2 == 1)
unfolding has
has-w pte = ground (arith, bit_and_four pte)

pub has-x : (pte : ℕ) → has pte pte_x ≡ (pte / 8 % 2 == 1)
unfolding has
has-x pte = ground (arith, bit_and_eight pte)

pub has-u : (pte : ℕ) → has pte pte_u ≡ (pte / 16 % 2 == 1)
unfolding has
has-u pte = ground (arith, bit_and_sixteen pte)

-- `PA2PTE(pa) | perm | PTE_V`, as it is stored in a table
unfoldable pub make_pte : ℕ → ℕ → ℕ
unfolding pa_to_pte
make_pte pa perm = bit_or (bit_or (pa_to_pte pa) perm) pte_v

pub make_pte_sum :
    (pa perm : ℕ)
    → pa < 2 ^ 56
    → perm < 1024
    → make_pte pa perm ≡ pa / 4096 * 1024 + perm / 2 * 2 + 1
unfolding make_pte pa_to_pte
make_pte_sum pa perm h p =
    ground
      (arith, bit_or-one (pa / 2 ^ 12 * 2 ^ 10 % 2 ^ 64 + perm), bit_or_fields (pa / 4096) perm p)

-- Address and flags of an entry come back: PTE2PA returns the page, PTE_FLAGS the permission bits
-- with PTE_V added, and the entry is valid.
pub make_pte_fields :
    (pa perm : ℕ)
    → pa < 2 ^ 56
    → pa % pgsize ≡ 0
    → perm < 1024
    → (pte_to_pa (make_pte pa perm) ≡ pa)
      × (pte_flags (make_pte pa perm) ≡ perm / 2 * 2 + 1)
      × (has (make_pte pa perm) pte_v ≡ true)
unfolding pte_to_pa pte_flags
make_pte_fields pa perm h a p = (omega (arith, s), omega (arith, s), has-v _ ∙ valid)
  where
    s : make_pte pa perm ≡ pa / 4096 * 1024 + perm / 2 * 2 + 1
    s = make_pte_sum pa perm h p

    valid : (make_pte pa perm % 2 == 1) ≡ true
    valid = ground (arith, s)

-- The other flags of an entry are those of its permissions.
pub make_pte_perm :
    (pa perm : ℕ)
    → pa < 2 ^ 56
    → perm < 1024
    → (has (make_pte pa perm) pte_r ≡ has perm pte_r)
      × (has (make_pte pa perm) pte_w ≡ has perm pte_w)
      × (has (make_pte pa perm) pte_u ≡ has perm pte_u)
make_pte_perm pa perm h p =
    (has-r _ ∙ r ∙ sym (has-r perm), has-w _ ∙ w ∙ sym (has-w perm), has-u _ ∙ u ∙ sym (has-u perm))
  where
    s : make_pte pa perm ≡ pa / 4096 * 1024 + perm / 2 * 2 + 1
    s = make_pte_sum pa perm h p

    r : (make_pte pa perm / 2 % 2 == 1) ≡ (perm / 2 % 2 == 1)
    r = ap (λ (t : ℕ). t == 1) (omega (arith, s))

    w : (make_pte pa perm / 4 % 2 == 1) ≡ (perm / 4 % 2 == 1)
    w = ap (λ (t : ℕ). t == 1) (omega (arith, s))

    u : (make_pte pa perm / 16 % 2 == 1) ≡ (perm / 16 % 2 == 1)
    u = ap (λ (t : ℕ). t == 1) (omega (arith, s))
