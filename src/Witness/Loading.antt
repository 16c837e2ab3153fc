-- ===== src/Witness/Loading.antt =====
-- The second page of a program's code, of which half is in the file.
use paging_os.Base.{ℕ, ◌+◌, ◌<◌, ◌≤◌, ◌≡◌, refl, ◌⊎◌, arith}
use paging_os.Machine.{ok, success, page_size, paddr_to_kvaddr}
use paging_os.Elf.{load_elf_ondemand}
use paging_os.Elf.Ondemand.{SegmentOk, from_file, first_byte, load_elf_ondemand_lem}
use paging_os.Witness.Devices.{World, world, world_laws}
use paging_os.Witness.Booting.{code}
use paging_os.Witness.Swapping.{files}

code-SegmentOk : SegmentOk code
code-SegmentOk = record { aligned = refl; whole = refl; small = omega arith; first = omega arith }

-- the world after the read
abbrev loaded : World
loaded = (world.vop_read files 3 0x2000 0x8001_0000 0x800).2

load_elf_ondemand_lem_example :
    let k = paddr_to_kvaddr (0x1_0000 + first_byte code 0x40_1000) in
    let n = from_file code 0x40_1000 in
    (load_elf_ondemand world 3 code 0x1_0000 0x40_1000 files ≡ ok success loaded)
    × ((j : ℕ) → j < n → world.mem loaded (k + j) ≡ world.file files 3 (0x2000 + j))
    × ((x : ℕ) → (x < k) ⊎ (k + n ≤ x) → world.mem loaded x ≡ world.mem files x)
    × (first_byte code 0x40_1000 + n ≤ page_size)
load_elf_ondemand_lem_example =
    load_elf_ondemand_lem world world_laws 3 0x1_0000 0x40_1000 code files loaded code-SegmentOk
      (omega arith, omega arith) refl (omega arith) (omega arith) refl
