-- ===== src/Tests/Screens.antt =====
-- Printing and the interrupt handlers, on a machine whose heap lies below the frame buffer.
use lappis.Base.{[], arith, codes, none, refl, ◌++◌, ◌∷◌, ◌≡◌}
use lappis.Heap.Alloc.{IsHeap}
use lappis.Keyboard.{cbuf, keyboard, keyboard_handler}
use lappis.Keyboard.Handler.{heard, keyboard_handler_lem}
use lappis.Machine.{Machine, Platform, Returns}
use lappis.Machine.Memory.{store_list}
use lappis.Mouse.{Mouse, handle}
use lappis.Mouse.Cursor.{IsMouse}
use lappis.Mouse.Packet.{handle_lem}
use lappis.Print.{print_box}
use lappis.Print.Box.{print_box_lem}
use lappis.Print.Shown.{Drew, FormatTerminates, IsScreen}
use lappis.Strings.Length.{IsCString-stored}
use lappis.Tests.{IsHeap-machine_with, machine, machine_with, platform}
use lappis.Video.{black, clear_screen}
use lappis.Video.Clear.{clear_screen_lem}
use lappis.Video.Pixels.{pixel_at}

platform-FormatTerminates : FormatTerminates platform
platform-FormatTerminates = record { text_of = λ m n text args pos. ([], refl, tt, pos) }

screen : IsScreen platform machine
screen = record { heap_below = omega arith; addressable = omega arith; rounds = omega arith }

heap : IsHeap machine
heap = IsHeap-machine_with (λ a. 0)

-- The text "Hi" at 0x100.
abbrev greeting : Machine
greeting = machine_with (store_list (λ a. 0) 0x100 (codes "Hi" ++ 0 ∷ []))

greeting-IsScreen : IsScreen platform greeting
greeting-IsScreen = record {
  heap_below = omega arith;
  addressable = omega arith;
  rounds = omega arith;
}

print_box_lem_example :
    Returns (λ _ m'. Drew greeting m') (print_box platform 0x100 8 2 none greeting)
print_box_lem_example =
    print_box_lem platform platform-FormatTerminates greeting greeting-IsScreen 0x100 8 2 none
      (codes "Hi") (IsHeap-machine_with greeting.mem)
      (IsCString-stored (λ a. 0) 0x100 (codes "Hi") (omega arith)) (omega arith) (omega arith)
      (omega arith)

clear_screen_lem_example : pixel_at 0 (clear_screen 0 (λ a. 1)) 5 6 ≡ black
clear_screen_lem_example = clear_screen_lem 0 (λ a. 1) 5 6 (omega arith) (omega arith)

-- The third byte of a packet, in the lower right corner.
abbrev waiting : Mouse
waiting = record {
  mouse_count = 2;
  stat_raw = 8;
  xrel_raw = 5;
  yrel_raw = 0;
  mouse_cursor_x = 1279;
  mouse_cursor_y = 1023;
}

handle_lem_example :
    Returns
      (λ s' m'. IsMouse s' × (s'.mouse_count ≡ 0) × Drew machine m')
      (handle platform 3 waiting machine)
handle_lem_example =
    handle_lem platform platform-FormatTerminates 3 waiting machine (omega arith)
      (record {
        count = omega arith;
        x_in = omega arith;
        y_in = omega arith;
        x_byte = omega arith;
        y_byte = omega arith;
      })
      heap screen

-- The key `a` is pressed.
abbrev typing : Platform
typing = record platform { device = λ trace port. 0x1E }

keyboard_handler_lem_example :
    Returns
      (λ k' m'. (k'.keys ≡ heard 0x1E cbuf) × Drew machine m')
      (keyboard_handler typing keyboard machine)
keyboard_handler_lem_example =
    keyboard_handler_lem typing (record { text_of = λ m n text args pos. ([], refl, tt, pos) })
      keyboard machine heap
      (record { heap_below = omega arith; addressable = omega arith; rounds = omega arith })
