-- ===== src/Thread/Tests.antt =====
-- A ring of three threads at 1, 2 and 3.
use destin_x.Prelude.{ℕ, ◌≡◌, refl, false, [], ◌∷◌, arith, ◌==◌, if◌then◌else◌}
use destin_x.Thread.{ThreadState, Thread, Kernel, enqueue_thread, dequeue_thread}
use destin_x.Thread.Create.{Threads, Allocated, no_stacks, create_user_thread}
use destin_x.Thread.Queue.{IsRing, enqueue_thread-IsRing, dequeue_thread-IsRing}

abbrev thread_at : ℕ → ℕ → Thread
thread_at v n = record {
  rsp = 0;
  tid = 0;
  state = ThreadState.ready;
  kernel_stack_top = 0;
  process = 0;
  prev = v;
  next = n;
  next_blocked = 0;
}

abbrev three : Kernel
three = record {
  thread = λ t.
      if t == 1
      then thread_at 3 2
      else if t == 2
      then thread_at 1 3
      else if t == 3
      then thread_at 2 1
      else thread_at 0 0;
  process = λ p. record { cr3 = 0; ustacks_infos = 0; mmap_infos = 0 };
  current_thread = 1;
  ready_list_head = 1;
  dead_list_head = 0;
  us_list_head = 0;
  mmap_list_head = 0;
  cr3 = 0;
  task_switched = false;
  tss_rsp0 = 0;
  kernel_rsp = 0;
}

three-IsRing : IsRing three (1 ∷ 2 ∷ 3 ∷ [])
three-IsRing = ground arith

enqueue_thread-IsRing_example : IsRing (enqueue_thread 4 three) (1 ∷ 2 ∷ 3 ∷ 4 ∷ [])
enqueue_thread-IsRing_example =
    enqueue_thread-IsRing three 4 (1 ∷ 2 ∷ 3 ∷ []) three-IsRing (omega arith) refl

dequeue_thread-IsRing_example : IsRing (dequeue_thread 1 three) (2 ∷ 3 ∷ [])
dequeue_thread-IsRing_example = dequeue_thread-IsRing three 1 [] (2 ∷ 3 ∷ []) three-IsRing

-- Thread 4 is created with a stack of 4 KiB at 0x10000, and its entry function is at 0x5000.
abbrev before : Threads
before = record {
  kernel = three;
  stacks = λ t. no_stacks;
  threads = λ p. 0;
  word = λ a. 0;
  next_thread_id = 7;
  freed = [];
}

abbrev allocated : Allocated
allocated = record {
  thread = 4;
  sse_avx_buffer = 0;
  kernel_stack = 0x10000;
  user_stack = 0;
  us_list_head = 0;
}

no_user_stack : (create_user_thread 0 9 0x400000 4096 4096 allocated before).0 ≡ 0
unfolding create_user_thread
no_user_stack = refl
