-- ===== src/Keyboard/Tests.antt =====
-- Typing `hi` and the return key.
use destin_x.Prelude.{ℕ, ◌≡◌, refl, true, false, List, [], ◌∷◌, ◌++◌, arith}
use destin_x.Thread.{ThreadState, Kernel}
use destin_x.Kring.{Ring, kring_flush_to_rbuf}
use destin_x.Keyboard.{Keyboard, keyboard_handler}
use destin_x.Keyboard.Keys.{lowercase_of}
use destin_x.Keyboard.Typing.{Listening, names, type_all, kring_flush_to_rbuf-keyboard_handler}

abbrev fresh : Ring
fresh = record { present = true; entries = λ i. record { c = 0; ready = 0 }; head = 0; tail = 0 }

abbrev idle : Kernel
idle = record {
  thread = λ t. record {
    rsp = 0;
    tid = 0;
    state = ThreadState.ready;
    kernel_stack_top = 0;
    process = 0;
    prev = 0;
    next = 0;
    next_blocked = 0;
  };
  process = λ p. record { cr3 = 0; ustacks_infos = 0; mmap_infos = 0 };
  current_thread = 0;
  ready_list_head = 0;
  dead_list_head = 0;
  us_list_head = 0;
  mmap_list_head = 0;
  cr3 = 0;
  task_switched = false;
  tss_rsp0 = 0;
  kernel_rsp = 0;
}

abbrev keyboard : Keyboard
keyboard = record {
  shift = false;
  capslock = false;
  ext = false;
  backspace = false;
  kring = record { write_kring = fresh; read_kring = fresh };
  screen = [];
  kernel = idle;
  read_blocked_thread = 0;
}

-- The scan codes of `h` and `i`.
abbrev codes : List ℕ
codes = 35 ∷ 23 ∷ []

written : names false codes ≡ b'h' ∷ b'i' ∷ []
unfolding lowercase_of
written = refl

shifted : (keyboard_handler 42 keyboard).shift ≡ true
unfolding keyboard_handler
shifted = refl

keyboard-Listening : Listening keyboard []
keyboard-Listening = record {
  read_on = refl;
  not_ext = refl;
  holds = record { fits = omega arith; ends = refl; small = omega arith; stored = tt };
}

kring_flush_to_rbuf-keyboard_handler_example :
    (kring_flush_to_rbuf 80 (keyboard_handler 28 (type_all codes keyboard)).kring).0
    ≡ names false codes ++ (10 ∷ [])
unfolding lowercase_of
kring_flush_to_rbuf-keyboard_handler_example =
    kring_flush_to_rbuf-keyboard_handler codes keyboard 80 keyboard-Listening refl refl
      (omega arith) (omega arith) (omega arith)
