-- ===== src/Console/Tests.antt =====
-- Thread 5 reads while no line waits, and then the return key goes down.
use destin_x.Prelude.{◌≡◌, refl, true, false, [], ◌∷◌, arith}
use destin_x.Thread.{ThreadState, Kernel}
use destin_x.Thread.Queue.{IsRing}
use destin_x.Mutex.Waiters.{state_of}
use destin_x.Kring.{Ring, check_from, check_for_n}
use destin_x.Keyboard.{Keyboard, keyboard_handler}
use destin_x.Keyboard.Typing.{Listening}
use destin_x.Console.{Console, Reading, terminal_read, terminal_write}
use destin_x.Console.Wake.{terminal_read-keyboard_handler}

abbrev fresh : Ring
fresh = record { present = true; entries = λ i. record { c = 0; ready = 0 }; head = 0; tail = 0 }

abbrev idle : Kernel
idle = record {
  thread = λ t. record {
    rsp = 0;
    tid = 0;
    state = ThreadState.ready;
    kernel_stack_top = 0;
    process = 0;
    prev = 0;
    next = 0;
    next_blocked = 0;
  };
  process = λ p. record { cr3 = 0; ustacks_infos = 0; mmap_infos = 0 };
  current_thread = 5;
  ready_list_head = 0;
  dead_list_head = 0;
  us_list_head = 0;
  mmap_list_head = 0;
  cr3 = 0;
  task_switched = false;
  tss_rsp0 = 0;
  kernel_rsp = 0;
}

abbrev keyboard : Keyboard
keyboard = record {
  shift = false;
  capslock = false;
  ext = false;
  backspace = false;
  kring = record { write_kring = fresh; read_kring = fresh };
  screen = [];
  kernel = idle;
  read_blocked_thread = 5;
}

abbrev console : Console
console = record {
  keyboard = keyboard;
  term_read_mutex = record { locked = 0; blocked_head = 0; blocked_tail = 0 };
}

no_line : check_for_n keyboard.kring ≡ false
unfolding check_for_n check_from
no_line = refl

keyboard-Listening : Listening keyboard []
keyboard-Listening = record {
  read_on = refl;
  not_ext = refl;
  holds = record { fits = omega arith; ends = refl; small = omega arith; stored = tt };
}

terminal_read-keyboard_handler_example :
    ((c' : Console) × (terminal_read 80 console ≡ Reading.waits_for_line c')
      × (c'.keyboard.read_blocked_thread ≡ 5)
      × (state_of c'.keyboard.kernel 5 ≡ ThreadState.blocked))
    × ((keyboard_handler 28 keyboard).read_blocked_thread ≡ 0)
    × (state_of (keyboard_handler 28 keyboard).kernel 5 ≡ ThreadState.ready)
    × IsRing (keyboard_handler 28 keyboard).kernel (5 ∷ [])
    × (check_for_n (keyboard_handler 28 keyboard).kring ≡ true)
terminal_read-keyboard_handler_example =
    terminal_read-keyboard_handler 80 console keyboard [] [] (omega arith) refl no_line
      (omega arith) refl keyboard-Listening (omega arith) (omega arith) refl refl

hello : (terminal_write (b'h' ∷ b'i' ∷ []) keyboard.kring).0 ≡ 2
unfolding terminal_write
hello = refl
