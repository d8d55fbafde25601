-- ===== src/Vm/Mapping.antt =====
-- What `mappages` and `supermappages` do to the translation of addresses.
use csci5103_lab.Common.{
  ℕ, ◌+◌, ◌*◌, ◌%◌, ◌^◌, ◌<◌, ◌≡◌, ◌≢◌, refl, sym, ap, ◌∙◌, arith, true, false, ◌==◌, some,
}
use mathlib.Core.Path.{subst}
use csci5103_lab.Riscv.{
  add64, sub64, pgsize, superpgsize, pte_v, pte_r, pte_u, has, pte_leaf, px, px_shift, max_va,
}
use csci5103_lab.Riscv.Address.{px-lt, px_super}
use csci5103_lab.Riscv.Pte.{make_pte, make_pte_sum, make_pte_fields, make_pte_perm}
use csci5103_lab.Memory.{Memory, load64, store64}
use csci5103_lab.Memory.Word.{load64-store64, load64-store64_ne}
use csci5103_lab.Machine.{Machine, ok, M, bind_ok}
use csci5103_lab.Vm.Walk.{slot_of, walk}
use csci5103_lab.Vm.Map.{Status, success, map_page, mappages_loop, mappages}
use csci5103_lab.Vm.Sv39.{is_reserved, translate}
use csci5103_lab.Vm.Lookup.{
  IsTable, IsLeaf, IsPath, walk-path, translate_start, translate_from-table, translate_from-leaf,
  translate_from-page,
}

-- An entry whose word is unchanged is still a table.
pub IsTable-cong :
    {m m' : Memory} (slot : ℕ) {p : ℕ}
    → load64 m' slot ≡ load64 m slot
    → IsTable m slot p
    → IsTable m' slot p
IsTable-cong slot e t = record {
  valid = rw e (t.valid);
  inner = rw e (t.inner);
  next = rw e (t.next);
}

-- Entries of different tables have different addresses.
pub slot-ne :
    (p q i j va vb : ℕ) → p % pgsize ≡ 0 → q % pgsize ≡ 0 → p ≢ q → slot_of p i va ≢ slot_of q j vb
slot-ne p q i j va vb hp hq n e = n (omega (arith, px-lt i va, px-lt j vb))

-- A write to an entry of the table `q` leaves the entries of another table.
pub IsTable-store :
    {m : Memory} (p q i j va vb v : ℕ) {next : ℕ}
    → p % pgsize ≡ 0
    → q % pgsize ≡ 0
    → p ≢ q
    → IsTable m (slot_of p i va) next
    → IsTable (store64 m (slot_of q j vb) v) (slot_of p i va) next
IsTable-store {m} p q i j va vb v hp hq n t =
    IsTable-cong (slot_of p i va)
      (load64-store64_ne m (slot_of q j vb) v (slot_of p i va) (omega arith) (omega arith)
        (λ e. slot-ne p q i j va vb hp hq n (sym e)))
      t

-- The permissions of a user mapping.
pub record IsUserPerm (perm : ℕ) : Type 0 where
  pub fits : perm < 1024
  pub readable : has perm pte_r ≡ true
  pub user : has perm pte_u ≡ true

module _ (pa perm : ℕ) (small : pa < 2 ^ 56) (al : pa % pgsize ≡ 0) (user : IsUserPerm perm) where
  make_pte-lt : make_pte pa perm < 2 ^ 64
  make_pte-lt = omega (arith, make_pte_sum pa perm small user.fits)

  -- An entry just written maps its page for the user.
  pub IsLeaf-store :
      (m : Memory) (slot : ℕ)
      → IsLeaf (store64 m slot (make_pte pa perm)) slot pa
        × (has (load64 (store64 m slot (make_pte pa perm)) slot) pte_u ≡ true)
  unfolding pte_leaf
  IsLeaf-store m slot =
      let read = load64-store64 m slot (make_pte pa perm) make_pte-lt in
      let fields = make_pte_fields pa perm small al user.fits in
      let perms = make_pte_perm pa perm small user.fits in
      (
        record {
          valid = rw read (fields.2);
          leaf = rw (read, perms.0, user.readable);
          proper = rw read (not_reserved _ (perms.0 ∙ user.readable));
          page = rw read (fields.0);
        },
        rw read (perms.2 ∙ user.user),
      )
    where
      not_reserved : (pte : ℕ) → has pte pte_r ≡ true → is_reserved pte ≡ false
      not_reserved pte r = ground (arith, r)

px_shift_one : px_shift 1 ≡ 21
unfolding px_shift
px_shift_one = refl

-- User accesses to the `n` bytes from `va` on reach the `n` bytes from `pa` on.
abbrev pub Maps : Memory → ℕ → ℕ → ℕ → ℕ → Type 0
Maps m table va pa n = (off : ℕ) → off < n → translate m table (va + off) ≡ some (pa + off)

module _ {m : Memory} (table va pa : ℕ) {p1 : ℕ} (h : va < max_va)
    (level2 : IsTable m (slot_of table 2 va) p1) where
  -- A table chain that ends in a leaf maps the whole page, or superpage.
  pub Maps-page :
      {p0 : ℕ}
      → va % pgsize ≡ 0
      → IsTable m (slot_of p1 1 va) p0
      → IsLeaf m (slot_of p0 0 va) pa
      → has (load64 m (slot_of p0 0 va)) pte_u ≡ true
      → Maps m table va pa pgsize
  unfolding px
  Maps-page {p0} al level1 leaf u off k =
      let same2 : px 2 (va + off) ≡ px 2 va = omega arith in
      let same1 : px 1 (va + off) ≡ px 1 va = omega arith in
      let same0 : px 0 (va + off) ≡ px 0 va = omega arith in
      let rest : (va + off) % pgsize ≡ off = omega arith in
      translate_start m table (va + off) (omega arith)
      ∙ translate_from-table table (va + off) 1 (at_index table 2 same2 level2)
      ∙ translate_from-table p1 (va + off) 0 (at_index p1 1 same1 level1)
      ∙ translate_from-page p0 (va + off) (leaf_at same0) (user_at same0)
      ∙ ap (λ (t : ℕ). some (pa + t)) rest
    where
      at_index :
          (t l : ℕ) {q : ℕ}
          → px l (va + off) ≡ px l va
          → IsTable m (slot_of t l va) q
          → IsTable m (slot_of t l (va + off)) q
      at_index t l {q} e i = subst (λ (x : ℕ). IsTable m (t + 8 * x) q) (sym e) i

      leaf_at : px 0 (va + off) ≡ px 0 va → IsLeaf m (slot_of p0 0 (va + off)) pa
      leaf_at e = subst (λ (x : ℕ). IsLeaf m (p0 + 8 * x) pa) (sym e) leaf

      user_at : px 0 (va + off) ≡ px 0 va → has (load64 m (slot_of p0 0 (va + off))) pte_u ≡ true
      user_at e = subst (λ (x : ℕ). has (load64 m (p0 + 8 * x)) pte_u ≡ true) (sym e) u

  pub Maps-super :
      va % superpgsize ≡ 0
      → IsLeaf m (slot_of p1 1 va) pa
      → has (load64 m (slot_of p1 1 va)) pte_u ≡ true
      → pa % superpgsize ≡ 0
      → Maps m table va pa superpgsize
  Maps-super al leaf u start off k =
      let (same2, same1, same0) = px_super va off al k in
      let rest : (va + off) % superpgsize ≡ off = omega arith in
      translate_start m table (va + off) (omega arith)
      ∙ translate_from-table table (va + off) 1
          (subst (λ (x : ℕ). IsTable m (table + 8 * x) p1) (sym same2) level2)
      ∙ translate_from-leaf p1 (va + off) 0
          (subst (λ (x : ℕ). IsLeaf m (p1 + 8 * x) pa) (sym same1) leaf)
          (subst (λ (x : ℕ). has (load64 m (p1 + 8 * x)) pte_u ≡ true) (sym same1) u) (starts start)
      ∙ offset_of rest
    where
      starts : pa % superpgsize ≡ 0 → pa % 2 ^ px_shift 1 ≡ 0
      starts e = rw px_shift_one e

      offset_of :
          (va + off) % superpgsize ≡ off → some (pa + (va + off) % 2 ^ px_shift 1) ≡ some (pa + off)
      offset_of e = rw px_shift_one (ap (λ (t : ℕ). some (pa + t)) e)

module _ (table va pa perm : ℕ) {p1 p0 : ℕ} (s : Machine) (h : va < max_va)
    (aligned : va % pgsize ≡ 0) (path : IsPath s.mem table va p1 p0)
    (free : has (load64 s.mem (slot_of p0 0 va)) pte_v ≡ false) (nz : 0 < p0) where
  mapped : Machine
  mapped = record s { mem = store64 s.mem (slot_of p0 0 va) (make_pte pa perm) }

  map_page-last : (next : M Status) → map_page table va pa perm true next s ≡ ok success mapped
  unfolding map_page mapped
  map_page-last next =
      bind_ok (walk table va true) _ (walk-path table va true s h path) ∙ rw (not_null, free)
    where
      not_null : (slot_of p0 0 va == 0) ≡ false
      not_null = ground arith

  mappages-page : mappages table va pgsize pa perm s ≡ ok success mapped
  unfolding mappages mappages_loop
  mappages-page = rw (ok_va, at_end) (map_page-last _)
    where
      ok_va : (va % pgsize == 0) ≡ true
      ok_va = ground arith

      at_end : (va == sub64 (add64 va pgsize) pgsize) ≡ true
      at_end = ground arith

-- `mappages` of one page, where the tables on the way are there and the entry is free, succeeds, and
-- user accesses to the page's 4096 addresses then reach the physical page.
pub mappages-Maps :
    (table va pa perm : ℕ) {p1 p0 : ℕ} (s : Machine)
    → va < max_va
    → va % pgsize ≡ 0
    → IsPath s.mem table va p1 p0
    → has (load64 s.mem (slot_of p0 0 va)) pte_v ≡ false
    → 0 < p0
    → pa < 2 ^ 56
    → pa % pgsize ≡ 0
    → IsUserPerm perm
    → (table % pgsize ≡ 0) × (p1 % pgsize ≡ 0) × (p0 % pgsize ≡ 0)
    → (table ≢ p0) × (p1 ≢ p0)
    → (s' : Machine) × (mappages table va pgsize pa perm s ≡ ok success s')
      × Maps s'.mem table va pa pgsize
unfolding mapped
mappages-Maps table va pa perm {p1} {p0} s h al path free nz small pal user (at, a1, a0) (n2, n1) =
    let (leaf, u) = IsLeaf-store pa perm small pal user s.mem (slot_of p0 0 va) in
    let v = make_pte pa perm in
    (
      mapped table va pa perm s h al path free nz,
      mappages-page table va pa perm s h al path free nz,
      Maps-page table va pa h (IsTable-store table p0 2 0 va va v at a0 n2 path.level2) al
          (IsTable-store p1 p0 1 0 va va v a1 a0 n1 path.level1) leaf u,
    )
