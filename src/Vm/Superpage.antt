-- ===== src/Vm/Superpage.antt =====
-- `superwalk` and `supermappages`: mapping a 2 MiB page.
use csci5103_lab.Common.{
  NotIn, ℕ, ◌+◌, ◌*◌, ◌/◌, ◌%◌, ◌^◌, ◌<◌, ◌≡◌, ◌≢◌, sym, ap, ◌∙◌, arith, Bool, true, false, ◌||◌,
  leb, ◌==◌, List, ◌∷◌, bit_or,
}
use csci5103_lab.Common.Bits.{bit_or-zero}
use csci5103_lab.Riscv.{
  pgsize, superpgsize, pte_v, pte_r, pte_w, pte_x, has, pte_leaf, pa_to_pte, max_va,
}
use csci5103_lab.Riscv.Address.{px-lt}
use csci5103_lab.Riscv.Pte.{make_pte, make_pte_sum, make_pte_fields, has-r, has-w, has-x, has-v}
use csci5103_lab.Memory.{Memory, load64, store64, fill}
use csci5103_lab.Memory.Word.{load64-store64, load64-store64_ne, load64-fill_zero}
use csci5103_lab.Machine.{Machine, ok, bind_ok}
use csci5103_lab.Kalloc.{kalloc}
use csci5103_lab.Kalloc.FreeList.{IsFree, kalloc_lem}
use csci5103_lab.Vm.Walk.{slot_of, superwalk, new_table}
use csci5103_lab.Vm.Map.{success, supermappages}
use csci5103_lab.Vm.Lookup.{IsTable}
use csci5103_lab.Vm.Mapping.{slot-ne, IsTable-store, IsUserPerm, IsLeaf-store, Maps, Maps-super}

below_max : (va : ℕ) → va < max_va → leb max_va va ≡ false
below_max va h = ground arith

-- With the level 1 table in place `superwalk` returns its entry and changes nothing.
pub superwalk-table :
    (table va : ℕ) {p1 : ℕ} (alloc : Bool) (s : Machine)
    → va < max_va
    → IsTable s.mem (slot_of table 2 va) p1
    → superwalk table va alloc s ≡ ok (slot_of p1 1 va) s
unfolding superwalk
superwalk-table table va alloc s h t = rw (below_max va h, t.valid, t.next)

-- A table entry as `walk` and `superwalk` write it for a fresh table.
pub IsTable-fresh :
    (m : Memory) (slot p : ℕ)
    → p < 2 ^ 56
    → p % pgsize ≡ 0
    → IsTable (store64 m slot (bit_or (pa_to_pte p) pte_v)) slot p
unfolding make_pte pte_leaf
IsTable-fresh m slot p small al =
    let same : make_pte p 0 ≡ bit_or (pa_to_pte p) pte_v =
      ap (λ (x : ℕ). bit_or x pte_v) (bit_or-zero (pa_to_pte p)) in
    let e : bit_or (pa_to_pte p) pte_v ≡ p / 4096 * 1024 + 1 =
      sym same ∙ make_pte_sum p 0 small (omega arith) ∙ omega arith in
    let read : load64 (store64 m slot (bit_or (pa_to_pte p) pte_v)) slot
        ≡ bit_or (pa_to_pte p) pte_v =
      load64-store64 m slot _ (omega (arith, e)) in
    let fields = make_pte_fields p 0 small al (omega arith) in
    record {
      valid = rw (read, ← same) (fields.2);
      inner = rw read (leafless _ e);
      next = rw (read, ← same) (fields.0);
    }
  where
    leafless :
        (pte : ℕ)
        → pte ≡ p / 4096 * 1024 + 1
        → (has pte pte_r || has pte pte_w || has pte pte_x) ≡ false
    leafless pte e = rw (has-r pte, has-w pte, has-x pte) (ground arith)

-- The free pages and the table do not overlap.
pub record IsRoot (table : ℕ) (ps : List ℕ) : Type 0 where
  pub aligned : table % pgsize ≡ 0
  pub outside : NotIn table ps

-- Without it, `superwalk` takes the first free page as a new level 1 table with no valid entry.
pub superwalk-new :
    {kernel_end : ℕ} (table va p : ℕ) (ps : List ℕ) (s : Machine)
    → va < max_va
    → IsFree kernel_end s (p ∷ ps)
    → p ≢ 0
    → IsRoot table (p ∷ ps)
    → has (load64 s.mem (slot_of table 2 va)) pte_v ≡ false
    → (s' : Machine) × (superwalk table va true s ≡ ok (slot_of p 1 va) s')
      × IsTable s'.mem (slot_of table 2 va) p
      × (load64 s'.mem (slot_of p 1 va) ≡ 0)
unfolding superwalk new_table
superwalk-new table va p ps s h f nz root invalid =
    let (s1, e, f1, same, sp, nf) = kalloc_lem (p ∷ ps) f in
    let zeroed : Machine = record s1 { mem = fill s1.mem p 0 pgsize } in
    let v = bit_or (pa_to_pte p) pte_v in
    let slot = slot_of table 2 va in
    (
      record s1 { mem = store64 (fill s1.mem p 0 pgsize) slot v },
      rw (below_max va h, invalid) (bind_ok kalloc _ e ∙ rw not_null),
      IsTable-fresh (fill s1.mem p 0 pgsize) slot p (omega (arith, f.pages)) (f.pages.0).aligned,
      load64-store64_ne (fill s1.mem p 0 pgsize) slot v (slot_of p 1 va)
            (omega (arith, root.aligned)) (omega (arith, f.pages))
            (slot-ne table p 2 1 va va root.aligned (f.pages.0).aligned root.outside.0)
          ∙ load64-fill_zero s1.mem p pgsize (slot_of p 1 va) (omega arith)
              (omega (arith, px-lt 1 va)),
    )
  where
    not_null : (p == 0) ≡ false
    not_null = ground arith

module _ (table va pa perm : ℕ) (h : va < max_va) (al : va % superpgsize ≡ 0) (small : pa < 2 ^ 56)
    (pal : pa % superpgsize ≡ 0) (user : IsUserPerm perm) (root : table % pgsize ≡ 0) where
  aligned_test : (va % superpgsize == 0) ≡ true
  aligned_test = ground arith

  -- The part of `supermappages` behind a successful `superwalk`.
  supermappages-entry :
      {p1 : ℕ} (s s' : Machine)
      → superwalk table va true s ≡ ok (slot_of p1 1 va) s'
      → IsTable s'.mem (slot_of table 2 va) p1
      → has (load64 s'.mem (slot_of p1 1 va)) pte_v ≡ false
      → 0 < p1
      → p1 % pgsize ≡ 0
      → table ≢ p1
      → (s'' : Machine) × (supermappages table va pa perm s ≡ ok success s'')
        × Maps s''.mem table va pa superpgsize
  unfolding supermappages
  supermappages-entry {p1} s s' e t free nz a1 n =
      let slot = slot_of p1 1 va in
      let v = make_pte pa perm in
      let (leaf, u) = IsLeaf-store pa perm small (omega (arith, pal)) user s'.mem slot in
      let not_null : (slot == 0) ≡ false = ground arith in
      (
        record s' { mem = store64 s'.mem slot v },
        rw aligned_test (bind_ok (superwalk table va true) _ e ∙ rw (not_null, free)),
        Maps-super table va pa h (IsTable-store table p1 2 1 va va v root a1 n t) al leaf u pal,
      )

  -- `supermappages` of a superpage, at a multiple of 2 MiB, into a free entry of a level 1 table that is there
  -- succeeds, and user accesses to all 2 MiB of addresses then reach the superpage, each at its own offset.
  pub supermappages-Maps :
      {p1 : ℕ} (s : Machine)
      → IsTable s.mem (slot_of table 2 va) p1
      → has (load64 s.mem (slot_of p1 1 va)) pte_v ≡ false
      → 0 < p1
      → p1 % pgsize ≡ 0
      → table ≢ p1
      → (s' : Machine) × (supermappages table va pa perm s ≡ ok success s')
        × Maps s'.mem table va pa superpgsize
  supermappages-Maps s t = supermappages-entry s s (superwalk-table table va true s h t) t

  -- Where the level 1 table is missing, `supermappages` takes a free page for it, with the same
  -- result.
  pub supermappages-Maps_new :
      {kernel_end : ℕ} (p : ℕ) (ps : List ℕ) (s : Machine)
      → IsFree kernel_end s (p ∷ ps)
      → NotIn table (p ∷ ps)
      → has (load64 s.mem (slot_of table 2 va)) pte_v ≡ false
      → (s' : Machine) × (supermappages table va pa perm s ≡ ok success s')
        × Maps s'.mem table va pa superpgsize
  supermappages-Maps_new p ps s f out invalid =
      let (s', e, t, zero_entry) =
        superwalk-new table va p ps s h f (f.chain.1) (record { aligned = root; outside = out })
          invalid in
      supermappages-entry s s' e t (rw zero_entry (has-v 0)) (omega (arith, f.chain.1))
        (f.pages.0).aligned out.0
