-- ===== src/Vm/Copying.antt =====
-- Which bytes `copyin` and `copyout` of kernel/vm.c touch, in a 4096-byte page and in a superpage.
use csci5103_lab.Common.{
  ℕ, ◌+◌, ◌*◌, ◌/◌, ◌%◌, ◌^◌, ◌≤◌, ◌<◌, ◌≡◌, sym, ap, ◌∙◌, some, arith, true, false,
}
use mathlib.Core.Path.{subst}
use csci5103_lab.Riscv.{pgsize, superpgsize, pte_u, pte_w, has, px, max_va}
use csci5103_lab.Riscv.Address.{px_super}
use csci5103_lab.Memory.{Memory, load64}
use csci5103_lab.Machine.{Machine, ok}
use csci5103_lab.Vm.Walk.{slot_of, walkaddr}
use csci5103_lab.Vm.Map.{success}
use csci5103_lab.Vm.Transfer.{copyin, copyout}
use csci5103_lab.Vm.Sv39.{translate}
use csci5103_lab.Vm.Lookup.{
  IsTable, IsLeaf, IsPath, walk-path, walk-super, walkaddr-translate, walkaddr-super,
}
use csci5103_lab.Vm.Mapping.{Maps, Maps-page, Maps-super}
use csci5103_lab.Vm.Access.{copied, copyin-within, copyout-within}

-- A user page of 4096 bytes at `va`, held at `pa`.
pub record IsUserPage (m : Memory) (table va p1 p0 pa : ℕ) : Type 0 where
  pub in_space : va < max_va
  pub aligned : va % pgsize ≡ 0
  pub path : IsPath m table va p1 p0
  pub leaf : IsLeaf m (slot_of p0 0 va) pa
  pub user : has (load64 m (slot_of p0 0 va)) pte_u ≡ true
  pub writable : has (load64 m (slot_of p0 0 va)) pte_w ≡ true
  pub proper : (0 < p0) × (0 < pa) × (pa < 2 ^ 56)

-- A user superpage at `va`, held at `pa`.
pub record IsUserSuper (m : Memory) (table va p1 pa : ℕ) : Type 0 where
  pub in_space : va < max_va
  pub aligned : va % superpgsize ≡ 0
  pub level2 : IsTable m (slot_of table 2 va) p1
  pub leaf : IsLeaf m (slot_of p1 1 va) pa
  pub user : has (load64 m (slot_of p1 1 va)) pte_u ≡ true
  pub writable : has (load64 m (slot_of p1 1 va)) pte_w ≡ true
  pub whole : pa % superpgsize ≡ 0
  pub proper : (0 < p1) × (0 < pa) × (pa < 2 ^ 56)

module _ (table va off len : ℕ) {p1 p0 pa : ℕ} (s : Machine)
    (page : IsUserPage s.mem table va p1 p0 pa) (inside : off < pgsize) (pos : 0 < len)
    (fits : off + len ≤ pgsize) where
  -- Within a writable user page, `copyin` reads and `copyout` writes exactly the physical bytes that
  -- user accesses to the given addresses reach, and both succeed.
  pub copy-page :
      (addr : ℕ)
      → Maps s.mem table va pa pgsize
        × (copyin table addr (va + off) len s ≡ ok success (copied s addr (pa + off) len))
        × (copyout table (va + off) addr len s ≡ ok success (copied s (pa + off) addr len))
  copy-page addr = (
    Maps-page table va pa page.in_space page.path.level2 page.aligned page.path.level1 page.leaf
        page.user,
    copyin-within table va off len pa s page.aligned inside pos fits found (page.proper.1)
        (page.proper.2) addr,
    copyout-within table va off len pa s page.aligned inside pos fits found (page.proper.1)
        (page.proper.2) addr (slot_of p0 0 va) page.in_space
        (walk-path table va false s page.in_space page.path) (omega (arith, page.proper.0))
        page.writable,
  )
    where
      found : walkaddr table va s ≡ ok pa s
      found =
          (walkaddr-translate table va pa s page.in_space page.path page.leaf page.user
            page.proper.0).0

module _ (table va j off len : ℕ) {p1 pa : ℕ} (s : Machine)
    (page : IsUserSuper s.mem table va p1 pa) (behind : 0 < j) (piece : j < 512)
    (inside : off < pgsize) (pos : 0 < len) (fits : off + len ≤ pgsize) where
  -- In a 4096-byte piece of a superpage behind the first, user accesses to the given addresses reach the bytes of that
  -- piece, but `copyin` reads and `copyout` writes the bytes at the same offset of the superpage's first piece,
  -- which are all in front of them, and both report success.
  pub copy-super :
      (addr : ℕ)
      → ((i : ℕ)
          → i < len
          → translate s.mem table (va + j * pgsize + off + i) ≡ some (pa + j * pgsize + off + i))
        × (pa + off + len ≤ pa + j * pgsize)
        × (copyin table addr (va + j * pgsize + off) len s
            ≡ ok success (copied s addr (pa + off) len))
        × (copyout table (va + j * pgsize + off) addr len s
            ≡ ok success (copied s (pa + off) addr len))
  copy-super addr = (
    (λ i h.
        ap (λ a. translate s.mem table a) (regroup va i)
        ∙ Maps-super table va pa page.in_space page.level2 page.aligned page.leaf page.user
            page.whole (j * pgsize + off + i) (omega (arith, h))
        ∙ ap some (sym (regroup pa i))),
    omega arith,
    copyin-within table base off len pa s al inside pos fits found (page.proper.1) (page.proper.2)
        addr,
    copyout-within table base off len pa s al inside pos fits found (page.proper.1) (page.proper.2)
        addr (slot_of p1 1 base) below (walk-super table base false s below level2 leaf)
        (omega (arith, page.proper.0)) writable,
  )
    where
      regroup : (x i : ℕ) → x + j * pgsize + off + i ≡ x + (j * pgsize + off + i)
      regroup x i = omega arith

      base : ℕ
      base = va + j * pgsize

      al : base % pgsize ≡ 0
      al = omega (arith, page.aligned)

      below : base < max_va
      below = omega (arith, page.in_space, page.aligned)

      same : (px 2 base ≡ px 2 va) × (px 1 base ≡ px 1 va) × (px 0 base ≡ j * pgsize / pgsize)
      same = px_super va (j * pgsize) page.aligned (omega arith)

      level2 : IsTable s.mem (slot_of table 2 base) p1
      level2 = subst (λ (x : ℕ). IsTable s.mem (table + 8 * x) p1) (sym same.0) page.level2

      leaf : IsLeaf s.mem (slot_of p1 1 base) pa
      leaf = subst (λ (x : ℕ). IsLeaf s.mem (p1 + 8 * x) pa) (sym same.1) page.leaf

      user : has (load64 s.mem (slot_of p1 1 base)) pte_u ≡ true
      user = subst (λ (x : ℕ). has (load64 s.mem (p1 + 8 * x)) pte_u ≡ true) (sym same.1) page.user

      writable : has (load64 s.mem (slot_of p1 1 base)) pte_w ≡ true
      writable =
          subst (λ (x : ℕ). has (load64 s.mem (p1 + 8 * x)) pte_w ≡ true) (sym same.1) page.writable

      found : walkaddr table base s ≡ ok pa s
      found = (walkaddr-super table base pa s below level2 leaf user page.proper.0 page.whole).0
