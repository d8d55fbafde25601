-- ===== src/Vm/Lookup.antt =====
-- `walk`, `superwalk` and `walkaddr` on tables that are there, against Sv39.
use csci5103_lab.Common.{
  ℕ, suc, ◌+◌, ◌%◌, ◌^◌, ◌<◌, ◌≡◌, ◌≢◌, refl, ap, ◌∙◌, arith, Bool, true, false, leb, ◌==◌, ==_iff,
  some,
}
use csci5103_lab.Riscv.{
  pgsize, superpgsize, pte_v, pte_u, has, pte_leaf, pte_to_pa, px_shift, max_va,
}
use csci5103_lab.Memory.{Memory, load64}
use csci5103_lab.Machine.{Machine, ok, bind_ok}
use csci5103_lab.Vm.Walk.{slot_of, walk_from, walk, walkaddr, new_table}
use csci5103_lab.Vm.Sv39.{is_reserved, leaf_address, translate_from, translate}

-- The entry at `slot` names the table `p`.
pub record IsTable (m : Memory) (slot p : ℕ) : Type 0 where
  pub valid : has (load64 m slot) pte_v ≡ true
  pub inner : pte_leaf (load64 m slot) ≡ false
  pub next : pte_to_pa (load64 m slot) ≡ p

-- The entry at `slot` maps the page at `pa`.
pub record IsLeaf (m : Memory) (slot pa : ℕ) : Type 0 where
  pub valid : has (load64 m slot) pte_v ≡ true
  pub leaf : pte_leaf (load64 m slot) ≡ true
  pub proper : is_reserved (load64 m slot) ≡ false
  pub page : pte_to_pa (load64 m slot) ≡ pa

-- An entry of a table is not writable.
table_proper : (pte : ℕ) → pte_leaf pte ≡ false → is_reserved pte ≡ false
unfolding pte_leaf
table_proper pte e = ground (arith, e)

below_max : (va : ℕ) → va < max_va → leb max_va va ≡ false
below_max va h = ground arith

module _ {m : Memory} (table va : ℕ) where
  -- One round of `walk` through a table, at a leaf and at an entry that is not valid.
  pub walk_from-table :
      (l : ℕ) {p : ℕ} (alloc : Bool) (s : Machine)
      → s.mem ≡ m
      → IsTable m (slot_of table (suc l) va) p
      → walk_from (suc l) table va alloc s ≡ walk_from l p va alloc s
  unfolding walk_from
  walk_from-table l alloc s e t = rw (e, t.valid, t.inner, t.next)

  pub walk_from-leaf :
      (l : ℕ) {p : ℕ} (alloc : Bool) (s : Machine)
      → s.mem ≡ m
      → IsLeaf m (slot_of table (suc l) va) p
      → walk_from (suc l) table va alloc s ≡ ok (slot_of table (suc l) va) s
  unfolding walk_from
  walk_from-leaf l alloc s e t = rw (e, t.valid, t.leaf)

  pub walk_from-none :
      (l : ℕ) (s : Machine)
      → s.mem ≡ m
      → has (load64 m (slot_of table (suc l) va)) pte_v ≡ false
      → walk_from (suc l) table va false s ≡ ok 0 s
  unfolding walk_from new_table
  walk_from-none l s e t = rw (e, t)

  pub translate_from-table :
      (l : ℕ) {p : ℕ}
      → IsTable m (slot_of table (suc l) va) p
      → translate_from (suc l) m table va ≡ translate_from l m p va
  unfolding translate_from
  translate_from-table l t = rw (t.valid, table_proper _ t.inner, t.inner, t.next)

  pub translate_from-leaf :
      (l : ℕ) {pa : ℕ}
      → IsLeaf m (slot_of table (suc l) va) pa
      → has (load64 m (slot_of table (suc l) va)) pte_u ≡ true
      → pa % 2 ^ px_shift (suc l) ≡ 0
      → translate_from (suc l) m table va ≡ some (pa + va % 2 ^ px_shift (suc l))
  unfolding translate_from leaf_address
  translate_from-leaf l {pa} t u al =
      let start : (pa % 2 ^ px_shift (suc l) == 0) ≡ true = (==_iff _ 0).1 al in
      rw (t.valid, t.proper, t.leaf, u, t.page, start)

  pub translate_from-page :
      {pa : ℕ}
      → IsLeaf m (slot_of table 0 va) pa
      → has (load64 m (slot_of table 0 va)) pte_u ≡ true
      → translate_from 0 m table va ≡ some (pa + va % pgsize)
  unfolding translate_from leaf_address px_shift
  translate_from-page t u = rw (t.valid, t.proper, t.leaf, u, t.page)

pub walk_start :
    (table va : ℕ) (alloc : Bool) (s : Machine)
    → va < max_va
    → walk table va alloc s ≡ walk_from 2 table va alloc s
unfolding walk
walk_start table va alloc s h = rw (below_max va h)

pub translate_start :
    (m : Memory) (table va : ℕ) → va < max_va → translate m table va ≡ translate_from 2 m table va
unfolding translate
translate_start m table va h = rw (below_max va h)

-- The tables on the way to the last level.
pub record IsPath (m : Memory) (table va p1 p0 : ℕ) : Type 0 where
  pub level2 : IsTable m (slot_of table 2 va) p1
  pub level1 : IsTable m (slot_of p1 1 va) p0

pub walk-path :
    (table va : ℕ) {p1 p0 : ℕ} (alloc : Bool) (s : Machine)
    → va < max_va
    → IsPath s.mem table va p1 p0
    → walk table va alloc s ≡ ok (slot_of p0 0 va) s
unfolding walk_from
walk-path table va alloc s h path =
    walk_start table va alloc s h
    ∙ walk_from-table table va 1 alloc s refl path.level2
    ∙ walk_from-table _ va 0 alloc s refl path.level1

pub walk-super :
    (table va : ℕ) {p1 pa : ℕ} (alloc : Bool) (s : Machine)
    → va < max_va
    → IsTable s.mem (slot_of table 2 va) p1
    → IsLeaf s.mem (slot_of p1 1 va) pa
    → walk table va alloc s ≡ ok (slot_of p1 1 va) s
walk-super table va alloc s h t l =
    walk_start table va alloc s h
    ∙ walk_from-table table va 1 alloc s refl t
    ∙ walk_from-leaf _ va 0 alloc s refl l

walkaddr_of_walk :
    (table va slot : ℕ) (s : Machine)
    → va < max_va
    → walk table va false s ≡ ok slot s
    → slot ≢ 0
    → has (load64 s.mem slot) pte_v ≡ true
    → has (load64 s.mem slot) pte_u ≡ true
    → walkaddr table va s ≡ ok (pte_to_pa (load64 s.mem slot)) s
unfolding walkaddr
walkaddr_of_walk table va slot s h e nz v u =
    rw (below_max va h) (bind_ok (walk table va false) _ e ∙ rw (not_null nz, v, u))
  where
    not_null : slot ≢ 0 → (slot == 0) ≡ false
    not_null n = ground arith

-- For a user page of 4096 bytes, `walkaddr` returns the page whose bytes user accesses reach: the
-- translation of `va` is the returned address and the offset of `va` in its page. No state changes.
pub walkaddr-translate :
    (table va pa : ℕ) {p1 p0 : ℕ} (s : Machine)
    → va < max_va
    → IsPath s.mem table va p1 p0
    → IsLeaf s.mem (slot_of p0 0 va) pa
    → has (load64 s.mem (slot_of p0 0 va)) pte_u ≡ true
    → 0 < p0
    → (walkaddr table va s ≡ ok pa s) × (translate s.mem table va ≡ some (pa + va % pgsize))
walkaddr-translate table va pa {p0} s h path l u nz = (
  walkaddr_of_walk table va (slot_of p0 0 va) s h (walk-path table va false s h path) (omega arith)
        l.valid u
      ∙ ap (λ p. ok p s) l.page,
  translate_start s.mem table va h
      ∙ translate_from-table table va 1 path.level2
      ∙ translate_from-table _ va 0 path.level1
      ∙ translate_from-page _ va l u,
)

-- For a superpage `walkaddr` returns the start of the 2 MiB page at every address in it, while a
-- user access reaches the byte at the offset in the 2 MiB page.
pub walkaddr-super :
    (table va pa : ℕ) {p1 : ℕ} (s : Machine)
    → va < max_va
    → IsTable s.mem (slot_of table 2 va) p1
    → IsLeaf s.mem (slot_of p1 1 va) pa
    → has (load64 s.mem (slot_of p1 1 va)) pte_u ≡ true
    → 0 < p1
    → pa % superpgsize ≡ 0
    → (walkaddr table va s ≡ ok pa s) × (translate s.mem table va ≡ some (pa + va % superpgsize))
unfolding px_shift
walkaddr-super table va pa {p1} s h t l u nz start = (
  walkaddr_of_walk table va (slot_of p1 1 va) s h (walk-super table va false s h t l) (omega arith)
        l.valid u
      ∙ ap (λ p. ok p s) l.page,
  translate_start s.mem table va h
      ∙ translate_from-table table va 1 t
      ∙ translate_from-leaf _ va 0 l u start,
)
