-- ===== src/Witness/Swapping.antt =====
-- A swap file of four pages, of which the first slot is taken.
use paging_os.Base.{ℕ, ◌+◌, ◌%◌, ◌<◌, ◌≤◌, ◌≡◌, refl, ◌⊎◌, true, false, arith, ◌==◌, if◌then◌else◌}
use paging_os.Machine.{ok, success, page_size, paddr_to_kvaddr}
use paging_os.Swap.{Store, swap_out, swap_in}
use paging_os.Swap.Trip.{StoreOk, frame_byte, swap_in-swap_out}
use paging_os.Witness.Devices.{FunMap, fun_map, fun_map_laws, World, world, world_laws, first_from}

abbrev pub files : World
files = record { mem = λ x. x % 256; file = λ v x. (v + x) % 256 }

abbrev pub store : Store FunMap World
store = record {
  swap_file = 9;
  swap_file_size = 0x4000;
  swap_map = record { size = 4; bit = λ i. i == 0 };
  used = 1;
  locked = false;
  world = files;
}

pub store-StoreOk : StoreOk fun_map world store
store-StoreOk = record { unlocked = refl; small = omega arith; counted = refl }

-- the store after the frame 0x10000 went to slot 1
abbrev swapped : Store FunMap World
swapped = record store {
  swap_map = record { size = 4; bit = λ j. if 1 == j then true else j == 0 };
  used = 2;
  world = (world.vop_write files 9 0x1000 0x8001_0000 page_size).1;
}

swapped_out : swap_out fun_map world 0x1_0000 store ≡ ok (success, 1) swapped
unfolding swap_out first_from
swapped_out = refl

swapped-StoreOk : StoreOk fun_map world swapped
swapped-StoreOk = record { unlocked = refl; small = omega arith; counted = refl }

-- the world after the slot is read into the frame 0x12000
abbrev read_back : World
read_back = (world.vop_read swapped.world 9 0x1000 0x8001_2000 page_size).2

swap_in-swap_out_example :
    (s3 : Store FunMap World) × (swap_in fun_map world 1 0x1_2000 true swapped
      ≡ ok (success, 0x1_2000) s3)
    × ((j : ℕ)
        → j < page_size
        → frame_byte fun_map world s3.world 0x1_2000 j ≡ frame_byte fun_map world files 0x1_0000 j)
    × ((x : ℕ)
        → (x < paddr_to_kvaddr 0x1_2000) ⊎ (paddr_to_kvaddr 0x1_2000 + page_size ≤ x)
        → world.mem s3.world x ≡ world.mem swapped.world x)
    × (fun_map.isset s3.swap_map 1 ≡ false)
    × StoreOk fun_map world s3
swap_in-swap_out_example =
    swap_in-swap_out fun_map fun_map_laws world world_laws store swapped swapped 0x1_0000 1 0x1_2000
      read_back store-StoreOk (λ e. omega arith) (λ _. refl) swapped_out swapped-StoreOk refl refl
      (λ j h. refl) refl
