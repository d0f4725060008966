-- ===== src/Tests.antt =====
-- The machines and the platform that the tests run on, and the tests.
mod Heaps
mod Texts
mod Archives
mod Drivers
mod Screens
mod Boot
mod Shell
mod System
mod Start
mod Picture
mod Program
use lappis.Base.{[], arith, refl, ◌∷◌}
use lappis.Heap.Alloc.{IsHeap}
use lappis.Heap.Userland.{MemcpyCopies}
use lappis.Machine.{Machine, Mem, Platform}
use lappis.Machine.Memory.{bytes_at}

-- A platform whose memcpy copies, whose ports read 0, and whose formatted texts are empty.
abbrev pub platform : Platform
platform = record {
  kernel_data = 0x100000;
  kernel_data_end = 0x400000;
  userland = 0x800000;
  userland_end = 0xC00000;
  frame_buffer = 0xE0000000;
  rounds = 1000;
  device = λ trace port. 0;
  copied = bytes_at;
  format = λ m n text args. 0 ∷ [];
  large_font = λ c i. 0;
}

pub platform-MemcpyCopies : MemcpyCopies platform
platform-MemcpyCopies = record { delivers = λ m s n. refl }

-- 4 KiB of kernel heap and of userland heap, and memory as given.
abbrev pub machine_with : Mem → Machine
machine_with mem = record {
  mem = mem;
  heap_start = 0x10000;
  heap_end = 0x11000;
  heap_current = 0x10000;
  userland_heap_start = 0x20000;
  userland_heap_end = 0x21000;
  userland_heap_current = 0x20000;
  cr4 = 0;
  trace = [];
}

abbrev pub machine : Machine
machine = machine_with (λ a. 0)

pub IsHeap-machine_with : (mem : Mem) → IsHeap (machine_with mem)
IsHeap-machine_with mem = record {
  not_null = omega arith;
  started = omega arith;
  below_end = omega arith;
  addressable = omega arith;
}
