-- ===== src/Keyboard.antt =====
-- src/keyboard/keyboard.c: the ring buffer of a process that the keyboard interrupt fills.
pub mod Drivers
pub mod Queue
pub mod Ps2
use tmp_os.Base.{ℕ, ◌+◌, ◌-◌, ◌%◌, ◌^◌, Option, none, some, List, ◌==◌, if◌then◌else◌, get_or, set}

abbrev pub keyboard_buffer_size : ℕ
keyboard_buffer_size = 1024

-- `struct keyboard_buffer`; `tail` and `head` are `uint32_t` and only reduced at an access.
pub record KeyboardBuffer : Type 0 where
  pub buffer : List ℕ
  pub tail : ℕ
  pub head : ℕ

-- What `task_current()->process` leads to; a NULL process is checked for in one place only.
pub data CurrentTask : Type 0 where
  no_task : CurrentTask
  no_process : CurrentTask
  running : KeyboardBuffer → CurrentTask

pub keyboard_get_tail_index : KeyboardBuffer → ℕ
keyboard_get_tail_index k = k.tail % keyboard_buffer_size

pub keyboard_backspace : KeyboardBuffer → KeyboardBuffer
unfolding keyboard_get_tail_index
keyboard_backspace k =
    let k' = record k { tail = (k.tail + (2 ^ 32 - 1)) % 2 ^ 32 } in
    record k' { buffer = set k'.buffer (keyboard_get_tail_index k') 0 }

pub push : ℕ → KeyboardBuffer → KeyboardBuffer
unfolding keyboard_get_tail_index
push c k = record k {
  buffer = set k.buffer (keyboard_get_tail_index k) c;
  tail = (k.tail + 1) % 2 ^ 32;
}

-- `none`: NULL is dereferenced.
unfoldable pub keyboard_push : ℕ → CurrentTask → Option CurrentTask
keyboard_push c no_task = none
keyboard_push c no_process = some no_process
keyboard_push c (running k) = some (running (if c == 0 then k else push c k))

pub pop : KeyboardBuffer → ℕ × KeyboardBuffer
pop k =
    let real_index = k.head % keyboard_buffer_size in
    let c = get_or k.buffer real_index 0 in
    if c == 0
    then (0, k)
    else (c, record k { buffer = set k.buffer real_index 0; head = (k.head + 1) % 2 ^ 32 })

pub keyboard_pop : CurrentTask → Option (ℕ × CurrentTask)
keyboard_pop no_task = some (0, no_task)
keyboard_pop no_process = none
keyboard_pop (running k) = let (c, k') = pop k in some (c, running k')
