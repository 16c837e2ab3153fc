-- ===== src/Life/Reaped.antt =====
-- proc_destroy of kern/proc/proc.c with the address space that as_destroy of kern/vm/addrspace.c destroys.
use paging_os.Base.{ℕ, ◌≡◌, ◌≢◌, Bool, true, false, some, ◌==◌, if◌then◌else◌, get_elem?}
use paging_os.Machine.{ok}
use paging_os.Machine.Platform.{BitmapOps, BitmapLaws, WorldOps}
use paging_os.Coremap.{CEntry, null, frame_paddr}
use paging_os.Coremap.Inv.{CoremapOk}
use paging_os.Kernel.{Kernel}
use paging_os.Life.{as_destroy}
use paging_os.Life.Destroy.{as_destroy-Destroyed}
use paging_os.Proc.{Procs, ProcOps, curproc, proc_destroy}
use paging_os.Proc.Table.{TableOk}
use paging_os.Proc.Reap.{empty_sem, proc_destroy-Destroyed}

-- The kernel whose files are `d`.
abbrev pub with_world : {T B D : Type 0} → D → Kernel T B D → Kernel T B D
with_world d k = record k { store = record k.store { world = d } }

module _ {T B D : Type 0} (bits : BitmapOps B) (wld : WorldOps D) (vop_ref : D → ℕ → D)
    (vop_unref : D → ℕ → D) where
  -- as_destroy, and the reference counts of the vnodes, which the file system keeps.
  abbrev pub kernel_ops : ProcOps (Kernel T B D)
  kernel_ops = record {
    as_destroy = as_destroy bits wld;
    vop_incref = λ k v. with_world (vop_ref k.store.world v) k;
    vop_decref = λ k v. with_world (vop_unref k.store.world v) k;
  }

  -- The kernel when the current directory of process `p` is given back.
  abbrev pub cwd_dropped : (p : ℕ) → Procs (Kernel T B D) → Kernel T B D
  cwd_dropped p s =
      if (s.procs p).p_cwd == null
      then s.rest
      else with_world (vop_unref s.rest.store.world (s.procs p).p_cwd) s.rest

  module _ (laws : BitmapLaws bits) where
    destroy_either :
        (b : Bool) (d : D) (space i : ℕ) (e : CEntry) (k : Kernel T B D)
        → k.mmu.stats.cpu.spinlocks ≡ 0
        → k.mmu.stats.cpu.in_interrupt ≡ false
        → space ≢ null
        → (k.spaces space).pt_locked ≡ false
        → k.store.locked ≡ false
        → k.core.locked ≡ false
        → CoremapOk k.core
        → get_elem? k.core.entries i ≡ some e
        → (k.spaces space).pt_paddr ≡ frame_paddr k.core i
        → let k1 = if b then k else with_world d k in
          (k' : Kernel T B D) × (as_destroy bits wld space k1 ≡ ok tt k')
          × paging_os.Life.Destroy.Destroyed bits laws wld space i e k1 k'
    destroy_either true d space i e k sl ir ne u sw l v q at =
        as_destroy-Destroyed bits laws wld space i e k sl ir ne u sw l v q at
    destroy_either false d space i e k sl ir ne u sw l v q at =
        as_destroy-Destroyed bits laws wld space i e (with_world d k) sl ir ne u sw l v q at

    -- proc_destroy of a process returns, with the real as_destroy, and gives everything back: its current
    -- directory; its program file; its swap slots, its frames and those of its page table, with the coremap well formed and
    -- unlocked; and its pid, with the process table valid and every other process as it was. Assumed is
    -- that the process is neither kproc nor current, has no thread left and nobody asleep on its
    -- semaphore, is in the process table, and has an address space whose page table starts at a frame of
    -- the coremap; and that the locks are free and the processor may sleep.
    pub proc_destroy-Reaped :
        (s : Procs (Kernel T B D)) (p count i : ℕ) (e : CEntry)
        → TableOk s
        → p ≢ 0
        → p ≢ s.kproc
        → p ≢ curproc s
        → get_elem? s.process_table.proc (s.procs p).p_pid ≡ some p
        → (s.procs p).p_sem ≡ some (empty_sem count)
        → (s.procs p).p_numthreads ≡ 0
        → (s.procs p).p_addrspace ≢ null
        → s.rest.mmu.stats.cpu.spinlocks ≡ 0
        → s.rest.mmu.stats.cpu.in_interrupt ≡ false
        → (s.rest.spaces (s.procs p).p_addrspace).pt_locked ≡ false
        → s.rest.store.locked ≡ false
        → s.rest.core.locked ≡ false
        → CoremapOk s.rest.core
        → get_elem? s.rest.core.entries i ≡ some e
        → (s.rest.spaces (s.procs p).p_addrspace).pt_paddr ≡ frame_paddr s.rest.core i
        → (k' : Kernel T B D) × (s' : Procs (Kernel T B D)) × (proc_destroy kernel_ops p s
            ≡ ok tt s')
          × paging_os.Proc.Reap.Destroyed kernel_ops p k' s s'
          × paging_os.Life.Destroy.Destroyed bits laws wld
              (s.procs p).p_addrspace
              i
              e
              (cwd_dropped p s)
              k'
    proc_destroy-Reaped s p count i e v live not_k not_cur here sem threads space sl ir u sw l ok_c
          q at =
        let a = (s.procs p).p_addrspace in
        let (k', gone, d) =
          destroy_either ((s.procs p).p_cwd == null)
            (vop_unref s.rest.store.world (s.procs p).p_cwd) a i e s.rest sl ir space u sw l ok_c q
            at in
        let (s', run, r) =
          proc_destroy-Destroyed kernel_ops s p count k' v live not_k not_cur here sem threads space
            gone in
        (k', s', run, r, d)
