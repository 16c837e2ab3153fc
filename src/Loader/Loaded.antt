-- ===== src/Loader/Loaded.antt =====
-- A program file that load_elf accepts, and what it leaves.
use paging_os.Base.{
  ℕ, ◌≡◌, ◌≢◌, refl, Bool, true, false, Option, none, some, List, [], ◌∷◌, ◌++◌, arith, ◌==◌,
  length, ◌∙◌,
}
use paging_os.Machine.{
  ok, fault, panicked, Status, success, err, enoexec, Outcome, and_then, Cmd, pure,
}
use paging_os.Machine.Platform.{TlbOps, BitmapOps, WorldOps}
use paging_os.Coremap.{null}
use paging_os.Coremap.Inv.{CoremapOk}
use paging_os.Space.Layout.{Ordered, Tabled}
use paging_os.Kernel.{Kernel, proc_getas}
use paging_os.Life.{as_prepare_load}
use paging_os.Life.Prepare.{stack_segment, PreparedOr, CanAlloc, as_prepare_load-Prepared}
use paging_os.Loader.{Ehdr, Phdr, ElfOps, is_executable, define_regions, load_elf, set_world}
use paging_os.Loader.Regions.{Holds, loadable, define_regions-Defined, ++_assoc}

module _ {T B W : Type 0} (tlb : TlbOps T) (bits : BitmapOps B) (wld : WorldOps W)
    (elf : ElfOps W) where
  -- load_elf of a file that is no executable for this machine
  load_elf_refuses :
      (allocated : ℕ → Bool) (v : ℕ) (k : Kernel T B W) (eh : Ehdr) (w : W)
      → elf.read_ehdr k.store.world v ≡ (0, 0, eh, w)
      → is_executable elf eh ≡ false
      → load_elf tlb bits wld elf allocated true v k ≡ ok (err enoexec, none) (set_world elf w k)
  unfolding load_elf proc_getas
  load_elf_refuses allocated v k eh w read bad = ground arith

  -- What load_elf does behind as_prepare_load.
  abbrev finish : (entry : ℕ) → Status → Cmd (Kernel T B W) (Status × Option ℕ)
  finish entry (err e) = pure (err e, none)
  finish entry success = pure (success, some entry)

  load_elf-steps :
      (v space : ℕ) (k k1 : Kernel T B W) (eh : Ehdr) (w : W)
      → k.curproc ≡ true
      → k.cur_as ≡ space
      → space ≢ 0
      → elf.read_ehdr k.store.world v ≡ (0, 0, eh, w)
      → is_executable elf eh ≡ true
      → define_regions elf
          (λ _. true)
          space
          v
          eh.e_phoff
          eh.e_phentsize
          eh.e_phnum
          0
          (set_world elf w k)
        ≡ ok success k1
      → load_elf tlb bits wld elf (λ _. true) true v k
        ≡ and_then (as_prepare_load tlb bits wld true space k1) (finish eh.e_entry)
  unfolding load_elf proc_getas
  load_elf-steps v space k k1 eh w cur here ne read good defined =
      let some_space : (space == null) ≡ false = ground arith in ground arith

  -- What load_elf leaves in an address space: the loadable segments and the stack behind the segments
  -- that were there, a page table with their pages, and the entry point of the file.
  abbrev pub LoadedOr :
      (space : ℕ)
      → Ehdr
      → List Phdr
      → (k : Kernel T B W) → Outcome (Kernel T B W) (Status × Option ℕ)
      → Type 0
  LoadedOr space eh headers k (ok (result, entry) k') =
      (result ≡ success)
      × (entry ≡ some eh.e_entry)
      × ((k'.spaces space).as_segment
          ≡ (k.spaces space).as_segment ++ (loadable elf headers ++ stack_segment ∷ []))
      × Tabled (k'.spaces space).as_pt (k'.spaces space).as_segment 0
      × ((k'.spaces space).pt_locked ≡ false)
      × CoremapOk k'.core
  LoadedOr space eh headers k (fault f) = f ≡ panicked

  finish-LoadedOr :
      (space : ℕ) (eh : Ehdr) (headers : List Phdr) (k k1 : Kernel T B W)
      (o : Outcome (Kernel T B W) Status)
      → (k1.spaces space).as_segment ≡ (k.spaces space).as_segment ++ loadable elf headers
      → PreparedOr space k1 o
      → LoadedOr space eh headers k (and_then o (finish eh.e_entry))
  finish-LoadedOr space eh headers k k1 (fault f) segments e = e
  finish-LoadedOr space eh headers k k1 (ok result k2) segments (e, p) = rw e (
    refl,
    refl,
    p.segments
        ∙ rw segments
            (++_assoc (k.spaces space).as_segment (loadable elf headers) (stack_segment ∷ [])),
    p.table,
    p.unlocked,
    p.core,
  )

  -- load_elf of an executable for this machine whose segment headers can be read and have types that it
  -- knows, when the segments with the stack are in order, kmalloc has memory and the coremap has a
  -- free frame: it stores the entry point of the file and succeeds, and the address space has gained
  -- the loadable segments and the stack, in this order, with a page table for all of its segments,
  -- its lock free and the coremap well-formed; or ptAlloc panics.
  pub load_elf-LoadedOr :
      (v space : ℕ) (k : Kernel T B W) (eh : Ehdr) (headers : List Phdr) (w1 w : W)
      → k.curproc ≡ true
      → k.cur_as ≡ space
      → space ≢ 0
      → elf.read_ehdr k.store.world v ≡ (0, 0, eh, w1)
      → is_executable elf eh ≡ true
      → eh.e_phnum ≡ length headers
      → Holds elf v eh.e_phoff eh.e_phentsize 0 w1 headers w
      → (k.spaces space).pt_locked ≡ false
      → CanAlloc k
      → Ordered 0 ((k.spaces space).as_segment ++ (loadable elf headers ++ stack_segment ∷ []))
      → LoadedOr space eh headers k (load_elf tlb bits wld elf (λ _. true) true v k)
  load_elf-LoadedOr v space k eh headers w1 w cur here ne read good n holds unlocked can order =
      let (k1, run, d) =
        define_regions-Defined elf space v eh.e_phoff eh.e_phentsize 0 headers w
          (set_world elf w1 k) ne holds in
      let core = d.core in
      let can1 : CanAlloc k1 = record {
        active = rw core can.active;
        unlocked = rw core can.unlocked;
        well_formed = rw core can.well_formed;
        start = rw core can.start;
        frame = can.frame;
        free = rw core can.free;
      } in
      let more : (k1.spaces space).as_segment
          ≡ (k.spaces space).as_segment ++ loadable elf headers =
        d.more in
      let order1 : Ordered 0 ((k1.spaces space).as_segment ++ stack_segment ∷ []) =
        rw (more, ++_assoc (k.spaces space).as_segment (loadable elf headers) (stack_segment ∷ []))
          order in
      let ready =
        as_prepare_load-Prepared tlb bits wld space k1 (d.unlocked ∙ unlocked) can1 order1 in
      rw (load_elf-steps v space k k1 eh w1 cur here ne read good (rw n run)) (
        finish-LoadedOr space eh headers k k1 (as_prepare_load tlb bits wld true space k1) more
          ready)
