-- ===== src/Fs/Lookups.antt =====
-- What `dirlookup` of kernel/fs.c finds.
use mathlib.Core.Path.{subst}
use csci5103_lab.Common.{
  ℕ, zero, suc, ◌+◌, ◌-◌, ◌*◌, ◌/◌, ◌%◌, ◌^◌, ◌≤◌, ◌<◌, ◌≡◌, ◌≢◌, inl, inr, refl, sym, ap, ◌∙◌,
  arith, Bool, true, false, Option, none, some, ltb, ltb-true_lt, ltb-false_le, ◌==◌, if◌then◌else◌,
  Bool-cases, ==_iff, differ, some-inj,
}
use csci5103_lab.Memory.{in_range}
use csci5103_lab.Cstring.Compare.{SameString, strncmp-cong, strncmp-SameString}
use csci5103_lab.Fs.Itable.{Inode}
use csci5103_lab.Fs.Blocks.{Superblock, Block, Disk, bsize}
use csci5103_lab.Fs.Bitmap.{IsReserved}
use csci5103_lab.Fs.Slots.{
  slot, block_slot, block_slot_lt, content, IsFile, Keeps, Keeps-refl, Keeps-trans,
}
use csci5103_lab.Fs.Content.{maxfile, Read, readi}
use csci5103_lab.Fs.Copied.{Bytes}
use csci5103_lab.Fs.Reading.{Reads}
use csci5103_lab.Fs.RoundTrip.{left, readi-Reads}
use csci5103_lab.Fs.Directory.{
  either_copyout, dirent_inum, dirent_name, namecmp, Lookup, whole_entry, dir_entry, dirlookup_loop,
  dirlookup,
}

absent_found : {A : Type 0} {x : A} → none ≡ some x → ⊥
absent_found e = cc

-- The entry `i` of a directory
abbrev pub entry_at : (ℕ → ℕ) → ℕ → Bytes
entry_at bytes i k = bytes (16 * i + k)

-- The entry is in use, and its name is the one looked for.
abbrev pub Named : (ℕ → ℕ) → Bytes → Type 0
Named name de = (dirent_inum de ≢ 0) × SameString 14 0 name (dirent_name de)

-- The first entry from `first` on that has the name, or there is none; the file is kept.
pub record LooksUp (sb : Superblock) (name : ℕ → ℕ) (dp : Inode) (d : Disk) (first : ℕ) (l : Lookup)
    : Type 0 where
  pub keeps : Keeps sb dp d l.inode l.disk
  pub found :
      (inum off : ℕ)
      → l.result ≡ some (inum, off)
      → (i : ℕ) × (off ≡ 16 * i)
        × (off < dp.size)
        × (inum ≡ dirent_inum (entry_at (content dp d) i))
        × Named name (entry_at (content dp d) i)
        × ((j : ℕ) → first ≤ j → j < i → Named name (entry_at (content dp d) j) → ⊥)
  pub absent :
      l.result ≡ none
      → (j : ℕ) → first ≤ j
      → 16 * j < dp.size
      → Named name (entry_at (content dp d) j)
      → ⊥

-- A directory has no holes, and whole entries.
pub record IsDirectory (sb : Superblock) (dp : Inode) (d : Disk) : Type 0 where
  pub file : IsFile sb dp d
  pub reserved : IsReserved sb d
  pub small : dp.size ≤ maxfile * bsize
  pub whole : dp.size % 16 ≡ 0
  pub filled : (p : ℕ) → p < dp.size → slot dp d (block_slot (p / bsize)) ≢ 0
  pub bytes : (p : ℕ) → content dp d p < 256

module _ (sb : Superblock) (copyout : ℕ → Block → ℕ → Bytes → Bool × Bytes) (name : ℕ → ℕ)
    (name_bytes : (k : ℕ) → name k < 256) (dp : Inode) (d : Disk) (dir : IsDirectory sb dp d) where
  -- An entry is read in full.
  read_entry :
      (i : ℕ) (ip : Inode) (d' : Disk) (de : Bytes)
      → 16 * i < dp.size
      → Keeps sb dp d ip d'
      → (r : Read Bytes) × (readi sb (either_copyout copyout false) 0 (16 * i) 16 ip d' de ≡ some r)
        × (r.count ≡ some 16)
        × Keeps sb dp d r.inode r.disk
        × ((k : ℕ) → k < 16 → r.memory k ≡ entry_at (content dp d) i k)
  read_entry i ip d' de h keeps =
      let size : ip.size ≡ dp.size = keeps.same_size in
      let all : left ip (16 * i) 16 ≡ 16 = ground (arith, size, h, dir.whole) in
      let (count, r, e, reads) =
        readi-Reads sb (either_copyout copyout false) ip d' 0 (16 * i) 16 de
          (λ dst m bytes mem. (refl, λ x. refl)) keeps.file keeps.reserved
          (omega (arith, size, dir.small)) (omega (arith, size, h)) (omega (arith, h, dir.small)) in
      let whole =
        all_read ip count all reads (λ p l z. dir.filled p l (was_filled ip d' keeps p l z)) size
          h in
      (
        r,
        e,
        reads.returned ∙ ap some whole,
        Keeps-trans sb dp d ip d' r.inode r.disk keeps reads.keeps,
        λ k l.
            reads.memory k
            ∙ ap (λ c. if c then content ip d' (16 * i + (k - 0)) else de k)
                (in_entry count k whole l)
            ∙ ap (λ j. content ip d' (16 * i + j)) (minus_zero k)
            ∙ keeps.same_content (16 * i + k) (omega (arith, l, h, dir.small, dir.whole)),
      )
    where
      minus_zero : (k : ℕ) → k - 0 ≡ k
      minus_zero k = omega arith

      in_entry : (count k : ℕ) → count ≡ 16 → k < 16 → in_range 0 (count - 0) k ≡ true
      in_entry count k whole l = ground (arith, whole, l)

      was_filled :
          (ip : Inode) (d' : Disk)
          → Keeps sb dp d ip d'
          → (p : ℕ) → p < dp.size
          → slot ip d' (block_slot (p / bsize)) ≡ 0
          → slot dp d (block_slot (p / bsize)) ≡ 0
      was_filled ip d' k p l z =
          let low = block_slot_lt (p / bsize) (omega (arith, l, dir.small)) in
          sym (k.no_fewer (block_slot (p / bsize)) low (dir.filled p l)) ∙ z

      all_read :
          (ip : Inode) (count : ℕ) {r : Read Bytes}
          → left ip (16 * i) 16 ≡ 16
          → Reads sb (left ip (16 * i) 16) 0 (16 * i) 0 ip d' de count r
          → ((p : ℕ) → p < dp.size → slot ip d' (block_slot (p / bsize)) ≢ 0)
          → ip.size ≡ dp.size
          → 16 * i < dp.size
          → count ≡ 16
      all_read ip count all reads full size h = elim reads.ends [
        | inl f ↦ f ∙ all
        | inr (lt, hole, _) ↦
            absurd (full (16 * i + (count - 0)) (omega (arith, lt, all, size, h, dir.whole)) hole)
      ]

  abbrev LooksUpAll : ℕ → Option Lookup → Type 0
  LooksUpAll first result = (l : Lookup) × (result ≡ some l) × LooksUp sb name dp d first l

  -- A name that an entry does not have
  past :
      (i : ℕ) (l : Lookup)
      → (Named name (entry_at (content dp d) i) → ⊥)
      → LooksUp sb name dp d (i + 1) l
      → LooksUp sb name dp d i l
  past i l not_named k = record {
    keeps = k.keeps;
    found = λ inum off e.
        let (j, at, inside, same, named, first) = k.found inum off e in
        (j, at, inside, same, named, later j first);
    absent = λ e j h m. elim (Bool-cases (j == i)) [
      | inl f ↦
          λ z. not_named (subst (λ a. Named name (entry_at (content dp d) a)) ((==_iff j i).0 f) z)
      | inr f ↦ k.absent e j (ground (arith, h, f)) m
    ];
  }
    where
      later :
          (bound : ℕ)
          → ((j : ℕ) → i + 1 ≤ j → j < bound → Named name (entry_at (content dp d) j) → ⊥)
          → (j : ℕ) → i ≤ j
          → j < bound
          → Named name (entry_at (content dp d) j)
          → ⊥
      later bound first j h m = elim (Bool-cases (j == i)) [
        | inl f ↦ λ z.
            not_named (subst (λ a. Named name (entry_at (content dp d) a)) ((==_iff j i).0 f) z)
        | inr f ↦ first j (ground (arith, h, f)) m
      ]

  here :
      (i inum : ℕ) (l : Lookup)
      → l ≡ record { result = some (inum, 16 * i); inode = l.inode; disk = l.disk }
      → inum ≡ dirent_inum (entry_at (content dp d) i)
      → Keeps sb dp d l.inode l.disk
      → 16 * i < dp.size
      → Named name (entry_at (content dp d) i)
      → LooksUp sb name dp d i l
  here i inum l is same keeps h named = record {
    keeps = keeps;
    found = λ inum' off e.
        let pair : (inum, 16 * i) ≡ (inum', off) = some-inj (sym (ap (λ l. l.result) is) ∙ e) in
        (
          i,
          sym (ap (λ p. p.1) pair),
          subst (λ o. o < dp.size) (ap (λ p. p.1) pair) h,
          sym (ap (λ p. p.0) pair) ∙ same,
          named,
          λ j k m. absurd (omega (arith, k, m)),
        );
    absent = λ e. absurd (absent_found (sym e ∙ ap (λ l. l.result) is));
  }

  dir_entry-LooksUp :
      (i : ℕ) (r : Read Bytes) (later : Read Bytes → Option Lookup)
      → 16 * i < dp.size
      → r.count ≡ some 16
      → Keeps sb dp d r.inode r.disk
      → ((k : ℕ) → k < 16 → r.memory k ≡ entry_at (content dp d) i k)
      → LooksUpAll (i + 1) (later r)
      → LooksUpAll i (dir_entry sb copyout name (16 * i) (some r) later)
  dir_entry-LooksUp i r later h count keeps same (l, e, goes_on) =
      let inums : dirent_inum r.memory ≡ dirent_inum (entry_at (content dp d) i) =
        ap (λ (b : ℕ). b + 256 * r.memory 1) (same 0 (omega arith))
        ∙ ap (λ (b : ℕ). entry_at (content dp d) i 0 + 256 * b) (same 1 (omega arith)) in
      let names : namecmp name (dirent_name r.memory)
          ≡ namecmp name (dirent_name (entry_at (content dp d) i)) =
        strncmp-cong 14 0 name (dirent_name r.memory) (dirent_name (entry_at (content dp d) i))
          (λ k m. same (2 + k) (omega (arith, m))) in
      let compared =
        strncmp-SameString name (dirent_name (entry_at (content dp d) i)) name_bytes
          (λ k. dir.bytes (16 * i + (2 + k))) 14 in
      let whole : whole_entry sb copyout r.count ≡ true = ap (whole_entry sb copyout) count in
      rw whole (elim (Bool-cases (dirent_inum r.memory == 0)) [
        | inl f ↦ rw f (l, e, past i l (λ (n, _). n (sym inums ∙ (==_iff _ 0).0 f)) goes_on)
        | inr f ↦ elim (Bool-cases (namecmp name (dirent_name r.memory) == 0)) [
          | inl g ↦
              let nonzero : dirent_inum (entry_at (content dp d) i) ≢ 0 =
                λ z. differ f ((==_iff _ 0).1 (inums ∙ z)) in
              rw (f, g)
                (
                  _,
                  refl,
                  here i _ _ refl inums keeps h
                      (nonzero, compared.0 (sym names ∙ (==_iff _ 0).0 g)),
                )
          | inr g ↦
              rw (f, g)
                (
                  l,
                  e,
                  past i l (λ (_, m). differ g ((==_iff _ 0).1 (names ∙ compared.1 m))) goes_on,
                )
        ]
      ])

  dirlookup_loop-LooksUp :
      (k i : ℕ) (ip : Inode) (d' : Disk) (de : Bytes)
      → dp.size < 16 * (i + k)
      → Keeps sb dp d ip d'
      → 16 * i ≤ dp.size
      → LooksUpAll i (dirlookup_loop sb copyout k name (16 * i) ip d' de)
  unfolding dirlookup_loop
  dirlookup_loop-LooksUp zero i ip d' de h keeps le = absurd (omega (arith, h, le))
  dirlookup_loop-LooksUp (suc k) i ip d' de h keeps le = elim (Bool-cases (ltb (16 * i) ip.size)) [
    | inr e ↦
        let past : dp.size ≤ 16 * i =
          omega (arith, ltb-false_le (16 * i) ip.size e, keeps.same_size) in
        rw e (
          _,
          refl,
          record {
            keeps = keeps;
            found = λ inum off f. absurd (absent_found f);
            absent = λ _ j a b. absurd (omega (arith, a, b, past));
          },
        )
    | inl e ↦
        let inside : 16 * i < dp.size =
          omega (arith, ltb-true_lt (16 * i) ip.size e, keeps.same_size) in
        let (r, f, count, keeps', same) = read_entry i ip d' de inside keeps in
        let next : (16 * i + 16) % 2 ^ 32 ≡ 16 * (i + 1) = omega (arith, inside, dir.small) in
        rw (e, f)
          (dir_entry-LooksUp i r
            (λ r'.
              dirlookup_loop sb copyout k name ((16 * i + 16) % 2 ^ 32) r'.inode r'.disk r'.memory)
            inside count keeps' same
            (rw next (
              dirlookup_loop-LooksUp k (i + 1) r.inode r.disk r.memory (omega (arith, h)) keeps'
                (omega (arith, inside, dir.whole)))))
  ]

  -- In a directory without holes, of whole entries and bytes: `dirlookup` does not panic, and gives the offset and the
  -- inode number of the first entry that is in use and has the name, compared in at most 14 characters; it
  -- gives none only if no entry has it. The content and the blocks of the directory are kept.
  pub dirlookup-LooksUp :
      (de : Bytes)
      → dp.itype ≡ 1
      → (l : Lookup) × (dirlookup sb copyout name dp d de ≡ some l) × LooksUp sb name dp d 0 l
  unfolding dirlookup
  dirlookup-LooksUp de is =
      let test : (dp.itype == 1) ≡ true = (==_iff dp.itype 1).1 is in
      rw test (
        dirlookup_loop-LooksUp (dp.size + 1) 0 dp d de (omega arith)
          (Keeps-refl sb dp d dir.file dir.reserved) (omega arith))
