-- ===== src/Proc/Life.antt =====
-- The functions of kernel/proc.c that make and free processes and their memory: `allocproc`,
-- `freeproc`, `proc_pagetable`, `proc_freepagetable`, `growproc`, `fork`, and a round of `wait`.
use csci5103_lab.Common.{
  ℕ, ◌%◌, ◌+◌, ◌^◌, Bool, true, false, not, ◌||◌, Option, none, some, List, [], ◌∷◌, set, bit_or,
  ◌==◌, ltb, if◌then◌else◌,
}
use csci5103_lab.Riscv.{add64, int_to_u64, pgsize, pte_r, pte_w, pte_x, trampoline_va, trapframe_va}
use csci5103_lab.Machine.{Panic, panic, M, pure, ◌>>=◌, ◌>>◌, write_pte, memmove}
use csci5103_lab.Kalloc.{kalloc, kfree}
use csci5103_lab.Vm.Map.{Status, success, failure, mappages, uvmunmap}
use csci5103_lab.Vm.User.{uvmcreate, uvmalloc, uvmdealloc, uvmfree, uvmcopy}
use csci5103_lab.File.{File, filedup}
use csci5103_lab.Fs.Itable.{Inode, idup}
use csci5103_lab.Proc.{unused, used, runnable, null, Proc, Table, at}
use csci5103_lab.Proc.Table.{Scan, found, havekids, wait_scan, killed, find_unused}

-- The process table with `nextpid`, an `int` whose increment wraps in `alloc_at`, and the tables whose entries a process refers to.
pub record Kernel : Type 0 where
  pub table : Table
  pub nextpid : ℕ
  pub files : List File
  pub inodes : List Inode

-- What a round of `wait` ends in.
pub data Waited : Type 0 where
  child : ℕ → Waited
  error sleeps : Waited

-- `ofile` and `cwd` stay as they are.
abbrev pub freed : Proc → Proc
freed p = record p {
  trapframe = 0;
  pagetable = 0;
  sz = 0;
  pid = 0;
  parent = none;
  chan = null;
  killed = false;
  xstate = 0;
  state = unused;
}

-- The loop over the open files: the parent's entries, the child's, and the file table.
unfoldable pub dup_files :
    List (Option ℕ) → List (Option ℕ) → List File → Option (List (Option ℕ) × List File)
dup_files [] cs files = some (cs, files)
dup_files (f ∷ fs) [] files = some ([], files)
dup_files (none ∷ fs) (c ∷ cs) files = elim (dup_files fs cs files) [
  | none ↦ none
  | some (cs', files') ↦ some (c ∷ cs', files')
]
dup_files (some f ∷ fs) (c ∷ cs) files = elim (filedup f files) [
  | none ↦ none
  | some files' ↦ elim (dup_files fs cs files') [
    | none ↦ none
    | some (cs', files'') ↦ some (some f ∷ cs', files'')
  ]
]

-- A process that runs has a `cwd`.
abbrev pub dup_cwd : Option ℕ → List Inode → List Inode
dup_cwd none is = is
dup_cwd (some i) is = idup i is

-- The size of `struct trapframe` and the offset of its field `a0`.
abbrev trapframe_size : ℕ
trapframe_size = 288

abbrev trapframe_a0 : ℕ
trapframe_a0 = 112

-- The two assignments that `fork` ends with, each under its lock.
unfoldable pub fork_parent : ℕ → ℕ → Table → Table
fork_parent me i ps = set ps i (record (at ps i) { parent = some me })

unfoldable pub fork_runnable : ℕ → Table → Table
fork_runnable i ps = set ps i (record (at ps i) { state = runnable })

-- What the build places: the end of the kernel and the page of kernel/trampoline.S.
module _ (kernel_end trampoline : ℕ) where
  unfoldable pub proc_pagetable : ℕ → M ℕ
  proc_pagetable trapframe = do
    pagetable ← uvmcreate
    if pagetable == 0 then pure 0 else do
      r ← mappages pagetable trampoline_va pgsize trampoline (bit_or pte_r pte_x)
      elim r [
        | failure ↦ do uvmfree kernel_end pagetable 0; pure 0
        | success ↦ do
          r' ← mappages pagetable trapframe_va pgsize trapframe (bit_or pte_r pte_w)
          elim r' [
            | failure ↦ do
              uvmunmap kernel_end pagetable trampoline_va 1 false
              uvmfree kernel_end pagetable 0
              pure 0
            | success ↦ pure pagetable
          ]
      ]

  unfoldable pub proc_freepagetable : ℕ → ℕ → M (Unit {0})
  proc_freepagetable pagetable sz = do
    uvmunmap kernel_end pagetable trampoline_va 1 false
    uvmunmap kernel_end pagetable trapframe_va 1 false
    uvmfree kernel_end pagetable sz

  unfoldable pub freeproc : ℕ → Table → M Table
  freeproc i ps =
      let p = at ps i in
      do
        if p.trapframe == 0 then pure tt else kfree kernel_end p.trapframe
        if p.pagetable == 0 then pure tt else proc_freepagetable p.pagetable p.sz
        pure (set ps i (freed p))

  -- The part of `allocproc` behind `found:`. `nextpid` is an `int`, of 32 bits.
  unfoldable pub alloc_at : ℕ → Kernel → M (Option ℕ × Kernel)
  alloc_at i k =
      let p = record (at k.table i) { pid = k.nextpid; state = used } in
      let next = λ (ps : Table). record k { table = ps; nextpid = (k.nextpid + 1) % 2 ^ 32 } in
      do
        trapframe ← kalloc
        let p1 = record p { trapframe = trapframe } in
            if trapframe == 0
            then (do ps ← freeproc i (set k.table i p1); pure (none, next ps))
            else do
              pagetable ← proc_pagetable trapframe
              let p2 = record p1 { pagetable = pagetable } in
                  if pagetable == 0
                  then (do ps ← freeproc i (set k.table i p2); pure (none, next ps))
                  else pure (some i, next (set k.table i p2))

  -- It returns the entry, whose memory is in place, or `none`.
  unfoldable pub allocproc : Kernel → M (Option ℕ × Kernel)
  allocproc k = elim (find_unused 0 k.table) [ none ↦ pure (none, k) | some i ↦ alloc_at i k ]

  -- `n` is a 32-bit `int`. It returns whether it succeeds.
  unfoldable pub growproc : ℕ → ℕ → Kernel → M (Bool × Kernel)
  growproc me n k =
      let p = at k.table me in
      let resized = λ (sz : ℕ). record k { table = set k.table me (record p { sz = sz }) } in
      if n == 0
      then pure (true, resized p.sz)
      else if ltb n (2 ^ 31)
      then (do
        sz ← uvmalloc kernel_end p.pagetable p.sz (add64 p.sz n) pte_w
        if sz == 0 then pure (false, k) else pure (true, resized sz))
      else do
        sz ← uvmdealloc kernel_end p.pagetable p.sz (add64 p.sz (int_to_u64 n))
        pure (true, resized sz)

  -- `fork` from the reference counts on, for a child, entry `i`, whose memory is in place.
  unfoldable pub fork_share :
      ℕ → ℕ → Kernel → Option (List (Option ℕ) × List File) → M (Option ℕ × Kernel)
  fork_share me i k none = λ s. panic Panic.filedup
  fork_share me i k (some (ofile, files)) =
      let p = at k.table me in
      pure (
        some i,
        record k {
          table = set k.table i (record (at k.table i) { sz = p.sz; ofile = ofile; cwd = p.cwd });
          files = files;
          inodes = dup_cwd p.cwd k.inodes;
        },
      )

  -- `fork` from the test of `uvmcopy` on, up to `release(&np->lock)`.
  unfoldable pub fork_copied : ℕ → ℕ → Kernel → Status → M (Option ℕ × Kernel)
  fork_copied me i k failure = do ps ← freeproc i k.table; pure (none, record k { table = ps })
  fork_copied me i k success =
      let p = at k.table me in
      let np = at k.table i in
      do
        memmove np.trapframe p.trapframe trapframe_size
        write_pte (np.trapframe + trapframe_a0) 0
        fork_share me i k (dup_files p.ofile np.ofile k.files)

  unfoldable pub fork_into : ℕ → ℕ → Kernel → M (Option ℕ × Kernel)
  fork_into me i k = do
    r ← uvmcopy kernel_end (at k.table me).pagetable (at k.table i).pagetable (at k.table me).sz
    fork_copied me i k r

  -- `fork` up to that point: the new entry, or `none`.
  unfoldable pub fork_copy : ℕ → Kernel → M (Option ℕ × Kernel)
  fork_copy me k = do
    (entry, k1) ← allocproc k
    elim entry [ none ↦ pure (none, k1) | some i ↦ fork_into me i k1 ]

  -- The child's pid, or `none` for -1.
  unfoldable pub fork : ℕ → Kernel → M (Option ℕ × Kernel)
  fork me k = do
    (entry, k1) ← fork_copy me k
    elim entry [
      | none ↦ pure (none, k1)
      | some i ↦ pure (
        some (at k1.table i).pid,
        record k1 { table = fork_runnable i (fork_parent me i k1.table) },
      )
    ]

  -- A round of the loop of `wait`; `refused` is whether `addr` is not 0 and `copyout` fails there.
  unfoldable pub wait_result : ℕ → Bool → Table → Scan → M (Waited × Table)
  wait_result me refused ps (found i) =
      if refused then pure (error, ps) else do ps' ← freeproc i ps; pure (child (at ps i).pid, ps')
  wait_result me refused ps (havekids kids) =
      if not kids || killed me ps then pure (error, ps) else pure (sleeps, ps)

  unfoldable pub wait_round : ℕ → Bool → Table → M (Waited × Table)
  wait_round me refused ps = wait_result me refused ps (wait_scan me 0 false ps)
