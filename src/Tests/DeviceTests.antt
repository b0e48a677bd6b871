-- ===== src/Tests/DeviceTests.antt =====
-- src/keyboard, src/disk and the terminal of src/utils.c on small inputs.
use tmp_os.Base.{
  ℕ, zero, suc, ◌+◌, ◌-◌, ◌*◌, ◌%◌, ◌<◌, ◌≡◌, refl, some, List, [], ◌∷◌, arith, get_or, replicate,
  ltb, leb, ◌==◌, ◌&&◌, if◌then◌else◌, length-replicate,
}
use tmp_os.Base.Int.{pos}
use tmp_os.Keyboard.{KeyboardBuffer, keyboard_buffer_size, push, pop, no_process, keyboard_push}
use tmp_os.Keyboard.Queue.{Holds, Op, put, get, run, run_queue, run_refines, push_full_jumps}
use tmp_os.Keyboard.Ps2.{ps2_keyboard_handle_interrupt, handle_interrupt-push}
use tmp_os.Disk.{Controller, disk_read_sector}
use tmp_os.Disk.Sector.{IsDisk, address, slice, disk_read_sector-slice}
use tmp_os.Disk.Streamer.{disk_stream_read}
use tmp_os.Disk.Stream.{at, transferred, disk_stream_read_lem}
use tmp_os.Terminal.{Terminal, print, term_new_line, clear_term, vga_width, vga_height}
use tmp_os.Terminal.Bounds.{OnScreen, print-OnScreen}
use tmp_os.Terminal.Text.{print-cells, clear_term_lem}
use tmp_os.Terminal.Scroll.{term_new_line_lem}
use tmp_os.Fat16.{FatPrivate, fat16_get_fat_entry}
use tmp_os.Fat16.Clusters.{fat_entry_lem}

get_or-replicate : (n i v : ℕ) → i < n → get_or (replicate n v) i 0 ≡ v
get_or-replicate zero i v h = absurd (omega arith)
get_or-replicate (suc n) zero v h = refl
get_or-replicate (suc n) (suc i) v h = get_or-replicate n i v (omega arith)

get_or-zeros : (n i : ℕ) → get_or {A = ℕ} (replicate n 0) i 0 ≡ 0
get_or-zeros zero i = refl
get_or-zeros (suc n) zero = refl
get_or-zeros (suc n) (suc i) = get_or-zeros n i

abbrev fresh : KeyboardBuffer
fresh = record { buffer = replicate keyboard_buffer_size 0; tail = 0; head = 0 }

fresh-Holds : Holds fresh []
fresh-Holds = record {
  sized = length-replicate {A = ℕ} keyboard_buffer_size 0;
  head_word = omega arith;
  fits = omega arith;
  tail_at = refl;
  cells = λ i h. get_or-zeros keyboard_buffer_size ((0 + i) % keyboard_buffer_size);
  keys = λ i h. absurd (omega arith);
}

abbrev typed : List Op
typed = put 65 ∷ put 66 ∷ get ∷ put 0 ∷ get ∷ get ∷ put 67 ∷ get ∷ []

run_refines_example : run fresh typed ≡ run_queue [] typed
run_refines_example =
    run_refines typed fresh [] fresh-Holds
      (omega arith, (omega arith, (omega arith, (omega arith, tt))))

abbrev crowded : KeyboardBuffer
crowded = record { buffer = replicate keyboard_buffer_size 65; tail = 1024; head = 0 }

crowded-Holds : Holds crowded (replicate keyboard_buffer_size 65)
crowded-Holds = record {
  sized = length-replicate {A = ℕ} keyboard_buffer_size 65;
  head_word = omega arith;
  fits = omega (arith, length-replicate {A = ℕ} keyboard_buffer_size 65);
  tail_at = omega (arith, length-replicate {A = ℕ} keyboard_buffer_size 65);
  cells = λ i h. omega (
    arith,
    get_or-replicate keyboard_buffer_size ((0 + i) % keyboard_buffer_size) 65 (omega arith),
    get_or-replicate keyboard_buffer_size i 65 h,
  );
  keys = λ i h. omega (
    arith,
    get_or-replicate keyboard_buffer_size i 65
        (omega (arith, length-replicate {A = ℕ} keyboard_buffer_size 65)),
  );
}

push_full_jumps_example : (pop (push 66 crowded)).0 ≡ 66
push_full_jumps_example =
    push_full_jumps crowded (replicate keyboard_buffer_size 65) 66 crowded-Holds
      (length-replicate {A = ℕ} keyboard_buffer_size 65) (omega arith)

-- The key A.
handle_interrupt-push_example :
    ps2_keyboard_handle_interrupt 0x1E no_process
    ≡ (if b'A' == 0 then some no_process else keyboard_push b'A' no_process)
handle_interrupt-push_example = handle_interrupt-push 0x1E b'A' no_process (omega arith) refl

-- A disk whose bytes are their addresses.
abbrev byte_at : ℕ → ℕ
byte_at a = a % 256

abbrev controller : Controller
controller r k = byte_at (address r * 512 + 2 * k) + 256 * byte_at (address r * 512 + 2 * k + 1)

controller-IsDisk : IsDisk byte_at controller
controller-IsDisk = record { is_byte = λ a. omega arith; answers = λ r k e d h. refl }

disk_read_sector-slice_example : disk_read_sector controller 3 2 ≡ slice byte_at (3 * 512) (512 * 2)
disk_read_sector-slice_example =
    disk_read_sector-slice byte_at controller 3 2 controller-IsDisk (omega arith) (omega arith)

-- Twenty bytes from byte 500 on: only twelve arrive.
disk_stream_read_lem_example :
    disk_stream_read controller (at 500) 20
    ≡ some (record {
      res = pos 0;
      stream = at (500 + transferred 500 20);
      out = slice byte_at 500 (transferred 500 20);
    })
disk_stream_read_lem_example =
    disk_stream_read_lem byte_at controller 500 20 controller-IsDisk (omega arith)

transferred_short : (transferred 500 20 ≡ 12) × (transferred 0 2000 ≡ 2000)
transferred_short = (refl, refl)

abbrev screen : Terminal
screen = record { video_mem = replicate 1600 0; term_col = 3; term_row = 19 }

screen-OnScreen : OnScreen screen
screen-OnScreen = record {
  column = omega arith;
  row = omega arith;
  memory = omega (arith, length-replicate {A = ℕ} 1600 0);
}

print-OnScreen_example : OnScreen (print (b'H' ∷ 10 ∷ 8 ∷ b'i' ∷ []) screen)
print-OnScreen_example = print-OnScreen (b'H' ∷ 10 ∷ 8 ∷ b'i' ∷ []) screen screen-OnScreen

abbrev hi : List ℕ
hi = b'H' ∷ b'i' ∷ []

print-cells_example :
    ((print hi screen).term_col ≡ 3 + 2)
    × ((print hi screen).term_row ≡ 19)
    × (get_or (print hi screen).video_mem 1524 0 ≡ (
        if leb 1523 1524 && ltb 1524 (1523 + 2)
        then 1024 + get_or hi (1524 - 1523) 0
        else get_or screen.video_mem 1524 0))
print-cells_example =
    print-cells hi screen 1524
      (omega arith, omega arith, omega arith, (omega arith, omega arith, omega arith, tt))
      screen-OnScreen (omega arith)

term_new_line_lem_example :
    ((term_new_line screen).term_col ≡ 0)
    × ((term_new_line screen).term_row ≡ (if 19 == 19 then 19 else 19 + 1))
    × (get_or (term_new_line screen).video_mem 7 0 ≡ (
        if 19 == 19 && ltb 7 ((vga_height - 1) * vga_width)
        then get_or screen.video_mem (7 + vga_width) 0
        else get_or screen.video_mem 7 0))
term_new_line_lem_example = term_new_line_lem screen 7 screen-OnScreen.memory (omega arith)

clear_term_lem_example :
    OnScreen (clear_term screen)
    × (get_or (clear_term screen).video_mem 7 0
        ≡ (if ltb 7 (vga_height * vga_width) then 1056 else get_or screen.video_mem 7 0))
clear_term_lem_example = clear_term_lem screen 7 screen-OnScreen.memory

abbrev private : FatPrivate
private = record {
  header = record {
    sectors_per_cluser = 2;
    reserved_sectors = 1;
    fat_copies = 2;
    rood_dir_entries = 512;
    sectors_per_fat = 32;
    sig = 0x29;
  };
  root_dir = record { item = []; total = 0; sector_pos = 65; ending_sector_pos = 97 };
}

fat_entry_lem_example :
    fat16_get_fat_entry controller private 3
    ≡ some (pos (byte_at (1 * 512 * (3 * 2)) + 256 * byte_at (1 * 512 * (3 * 2) + 1)))
fat_entry_lem_example = fat_entry_lem byte_at controller private 3 controller-IsDisk (omega arith)
