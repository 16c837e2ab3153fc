-- ===== src/Elf.antt =====
-- load_elf_ondemand of kern/syscall/loadelf.c: which bytes of the program are read into a frame.
pub mod Ondemand
use paging_os.Base.{ℕ, ◌+◌, ◌-◌, ◌*◌, ◌/◌, ◌%◌, ltb, ◌==◌, if◌then◌else◌}
use paging_os.Machine.{u32, page_size, add32, sub32, page_frame, Cmd, Status}
use paging_os.Machine.Platform.{WorldOps}
use paging_os.Space.{Segment}
use paging_os.Swap.{load_segment}

-- The arguments of load_segment: `shift` is what is added to the address of the frame.
pub record ReadPlan : Type 0 where
  pub offset : ℕ
  pub shift : ℕ
  pub memsize : ℕ
  pub filesize : ℕ

unfoldable pub read_plan : Segment → (vaddr : ℕ) → ReadPlan
read_plan seg vaddr =
    let vpn = page_frame vaddr in
    let amt = page_frame (sub32 vpn seg.start) in
    let filesize =
      if ltb seg.filesize amt
      then 0
      else if ltb page_size (seg.filesize - amt)
      then page_size
      else seg.filesize - amt in
    let memsize = if ltb page_size (sub32 seg.size amt) then page_size else sub32 seg.size amt in
    if amt == 0
    then record {
      offset = seg.offset + amt;
      shift = seg.initoffset;
      memsize = sub32 memsize seg.initoffset;
      filesize = sub32 memsize seg.initoffset;
    }
    else record { offset = seg.offset + amt; shift = 0; memsize = memsize; filesize = filesize }

-- `v` is the vnode of the program, `as->v`.
unfoldable pub load_elf_ondemand :
    {W : Type 0} → WorldOps W → (v : ℕ) → Segment → (paddr vaddr : ℕ) → Cmd W Status
load_elf_ondemand wld v seg paddr vaddr =
    let p = read_plan seg vaddr in
    load_segment wld v p.offset (add32 paddr p.shift) p.memsize p.filesize
