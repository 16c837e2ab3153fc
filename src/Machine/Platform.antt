-- ===== src/Machine/Platform.antt =====
-- What the kernel uses and the repository does not hold: the TLB of the processor, the bitmaps of
-- kern/lib, and memory with the files behind VOP_READ and VOP_WRITE. Each is a record of operations
-- over a type of its own, with a record of the documented laws that the theorems rely on.
use paging_os.Base.{ℕ, ◌+◌, ◌<◌, ◌≤◌, ◌≡◌, ◌≢◌, ◌⊎◌, Bool, true, false, Option, none, some}
use paging_os.Machine.Words.{page_frame}

-- tlb_read, tlb_write (entryhi, entrylo, index) and tlb_probe; `none` is a negative index.
pub record TlbOps (T : Type 0) : Type 0 where
  pub read : T → ℕ → ℕ × ℕ
  pub write : T → (ehi elo index : ℕ) → T
  pub probe : T → (ehi : ℕ) → Option ℕ

-- NUM_TLB
abbrev pub num_tlb : ℕ
num_tlb = 64

pub record TlbLaws {T : Type 0} (ops : TlbOps T) : Type 0 where
  pub read-write_self :
      (t : T) (hi lo i : ℕ) → i < num_tlb → ops.read (ops.write t hi lo i) i ≡ (hi, lo)
  pub read-write_ne :
      (t : T) (hi lo i j : ℕ) → i ≢ j → ops.read (ops.write t hi lo i) j ≡ ops.read t j
  pub probe-some :
      (t : T) (hi i : ℕ)
      → ops.probe t hi ≡ some i
      → (i < num_tlb) × (page_frame (ops.read t i).0 ≡ page_frame hi)
  pub probe-none :
      (t : T) (hi i : ℕ)
      → ops.probe t hi ≡ none
      → i < num_tlb
      → page_frame (ops.read t i).0 ≢ page_frame hi

-- bitmap_alloc (`none` is its error, and `alloc_error` the code of it), bitmap_unmark, bitmap_isset and
-- bitmap_create
pub record BitmapOps (B : Type 0) : Type 0 where
  pub create : (nbits : ℕ) → B
  pub alloc : B → Option (ℕ × B)
  pub alloc_error : ℕ
  pub unmark : B → ℕ → B
  pub isset : B → ℕ → Bool
  pub nbits : B → ℕ

pub record BitmapLaws {B : Type 0} (ops : BitmapOps B) : Type 0 where
  pub alloc-fresh :
      (b b' : B) (i : ℕ) → ops.alloc b ≡ some (i, b') → (ops.isset b i ≡ false) × (i < ops.nbits b)
  pub alloc-isset : (b b' : B) (i : ℕ) → ops.alloc b ≡ some (i, b') → ops.isset b' i ≡ true
  pub alloc-others :
      (b b' : B) (i j : ℕ) → ops.alloc b ≡ some (i, b') → i ≢ j → ops.isset b' j ≡ ops.isset b j
  pub alloc-full : (b : B) (i : ℕ) → ops.alloc b ≡ none → i < ops.nbits b → ops.isset b i ≡ true
  pub alloc-nbits : (b b' : B) (i : ℕ) → ops.alloc b ≡ some (i, b') → ops.nbits b' ≡ ops.nbits b
  pub unmark-nbits : (b : B) (i : ℕ) → ops.nbits (ops.unmark b i) ≡ ops.nbits b
  pub unmark_self : (b : B) (i : ℕ) → ops.isset (ops.unmark b i) i ≡ false
  pub unmark_ne : (b : B) (i j : ℕ) → i ≢ j → ops.isset (ops.unmark b i) j ≡ ops.isset b j
  pub create-clear : (n i : ℕ) → ops.isset (ops.create n) i ≡ false

-- Memory by kernel virtual addresses, and files by vnode. A read or write has the error code of
-- VOP_READ or VOP_WRITE (0 is success) and, for a read, the bytes that are left.
pub record WorldOps (W : Type 0) : Type 0 where
  pub vop_read : W → (vnode offset kvaddr len : ℕ) → ℕ × ℕ × W
  pub vop_write : W → (vnode offset kvaddr len : ℕ) → ℕ × W
  pub bzero : W → (kvaddr len : ℕ) → W
  pub memmove : W → (dst src len : ℕ) → W
  pub vfs_close : W → (vnode : ℕ) → W
  -- the byte at an address, and the byte of a file at an offset
  pub mem : W → ℕ → ℕ
  pub file : W → ℕ → ℕ → ℕ

pub record WorldLaws {W : Type 0} (ops : WorldOps W) : Type 0 where
  -- a complete read fills the memory from the file
  pub read-mem :
      (w w' : W) (v offset a len j : ℕ)
      → ops.vop_read w v offset a len ≡ (0, 0, w')
      → j < len
      → ops.mem w' (a + j) ≡ ops.file w v (offset + j)
  pub read-others :
      (w : W) (v offset a len x : ℕ)
      → (x < a) ⊎ (a + len ≤ x)
      → ops.mem (ops.vop_read w v offset a len).2 x ≡ ops.mem w x
  pub read-file :
      (w : W) (v offset a len u x : ℕ)
      → ops.file (ops.vop_read w v offset a len).2 u x ≡ ops.file w u x
  -- a write that returns 0 puts the memory into the file; that it can be a short one, which only uio_resid
  -- would tell, is left out, as swap_out does not look at uio_resid
  pub write-file :
      (w w' : W) (v offset a len j : ℕ)
      → ops.vop_write w v offset a len ≡ (0, w')
      → j < len
      → ops.file w' v (offset + j) ≡ ops.mem w (a + j)
  pub write-others :
      (w : W) (v offset a len x : ℕ)
      → (x < offset) ⊎ (offset + len ≤ x)
      → ops.file (ops.vop_write w v offset a len).1 v x ≡ ops.file w v x
  pub write-mem :
      (w : W) (v offset a len x : ℕ) → ops.mem (ops.vop_write w v offset a len).1 x ≡ ops.mem w x
  pub bzero-mem : (w : W) (a len j : ℕ) → j < len → ops.mem (ops.bzero w a len) (a + j) ≡ 0
  pub bzero-others :
      (w : W) (a len x : ℕ) → (x < a) ⊎ (a + len ≤ x) → ops.mem (ops.bzero w a len) x ≡ ops.mem w x

-- Files by path and vnode, user memory, and the console. vfs_open returns an error code and the vnode;
-- VOP_READ and VOP_WRITE of a user buffer return an error code, uio_offset and uio_resid.
pub record VfsOps (W : Type 0) : Type 0 where
  pub vfs_open : W → (path flags mode : ℕ) → ℕ × ℕ × W
  pub vfs_close : W → (vnode : ℕ) → W
  pub vop_incref : W → (vnode : ℕ) → W
  pub vop_decref : W → (vnode : ℕ) → W
  pub vop_read_user : W → (vnode offset buf size : ℕ) → ℕ × ℕ × ℕ × W
  pub vop_write_user : W → (vnode offset buf size : ℕ) → ℕ × ℕ × ℕ × W
  pub putch : W → (byte : ℕ) → W
  pub getch : W → ℕ × W
  pub user_byte : W → (addr : ℕ) → ℕ
  pub set_user_byte : W → (addr byte : ℕ) → W

-- a vnode that vfs_open returns is not NULL
pub record VfsLaws {W : Type 0} (ops : VfsOps W) : Type 0 where
  pub open-vnode :
      (w : W) (path flags mode : ℕ)
      → (ops.vfs_open w path flags mode).0 ≡ 0
      → (ops.vfs_open w path flags mode).1 ≢ 0
