-- ===== src/Thread/Create.antt =====
-- The creation of threads, kernel/scheduler/thread.c: the stack frame that the first switch to a thread pops.
-- What `kmalloc`, `vmalloc`, `kernel_alloc_stack` and `user_alloc_stack` return are arguments.
use destin_x.Prelude.{
  ℕ, ◌+◌, ◌*◌, ◌/◌, not, ◌&&◌, Option, none, some, List, [], ◌∷◌, ◌++◌, ltb, leb, ◌==◌,
  if◌then◌else◌, update, add64, sub64,
}
use destin_x.Thread.{ThreadState, Thread, Kernel, set_thread, set_prev, enqueue_thread}

-- The fields of a `thread_t` that only its creation and its end use.
pub record Stacks : Type 0 where
  pub kernel_bottom : ℕ
  pub kernel_size : ℕ
  pub user_bottom : ℕ
  pub user_top : ℕ
  pub user_size : ℕ
  pub page_guard_min : ℕ
  pub page_guard_max : ℕ
  pub sse_avx_buffer : ℕ
  pub next_pthread : ℕ

-- `word` is the memory of the stacks and of the buffers of vector registers, by words of eight bytes, `threads` the first thread of each process, and `freed` the calls of `kfree`.
pub record Threads : Type 0 where
  pub kernel : Kernel
  pub stacks : ℕ → Stacks
  pub threads : ℕ → ℕ
  pub word : ℕ → ℕ
  pub next_thread_id : ℕ
  pub freed : List ℕ

-- What the allocators return: the thread, the buffer of vector registers, the stacks, and the list of user stacks.
pub record Allocated : Type 0 where
  pub thread : ℕ
  pub sse_avx_buffer : ℕ
  pub kernel_stack : ℕ
  pub user_stack : ℕ
  pub us_list_head : ℕ

-- `stack_top--; *stack_top = x;` for each of the words.
unfoldable pub push_all : List ℕ → (top : ℕ) → (ℕ → ℕ) → ℕ × (ℕ → ℕ)
push_all [] top word = (top, word)
push_all (x ∷ xs) top word = push_all xs (sub64 top 8) (update word (sub64 top 8) x)

-- The fifteen registers.
abbrev pub registers : List ℕ
registers = 0 ∷ 0 ∷ 0 ∷ 0 ∷ 0 ∷ 0 ∷ 0 ∷ 0 ∷ 0 ∷ 0 ∷ 0 ∷ 0 ∷ 0 ∷ 0 ∷ 0 ∷ []

-- The frame below `top`: the return address of the entry function, what `iretq` pops, and the registers.
unfoldable pub frame : (top ret ss cs entry_point : ℕ) → (ℕ → ℕ) → ℕ × (ℕ → ℕ)
frame top ret ss cs entry_point word =
    let clean_stack_top = sub64 (top / 16 * 16) 8 in
    push_all (ss ∷ clean_stack_top ∷ 0x202 ∷ cs ∷ entry_point ∷ registers) clean_stack_top
      (update word clean_stack_top ret)

-- The `thread_t` after `memset` and the assignments at the end.
abbrev pub new_thread : (rsp tid kernel_stack_top process : ℕ) → Thread
new_thread rsp tid kernel_stack_top process = record {
  rsp = rsp;
  tid = tid;
  state = ThreadState.ready;
  kernel_stack_top = kernel_stack_top;
  process = process;
  prev = 0;
  next = 0;
  next_blocked = 0;
}

abbrev pub free_all : List ℕ → Threads → Threads
free_all xs s = record s { freed = s.freed ++ xs }

-- `t->sse_avx_buffer`, which stays `NULL` when there are no such registers to save.
abbrev pub with_buffer : (sse_avx_buf_size : ℕ) → Allocated → Allocated
with_buffer sse_avx_buf_size a = record a {
  sse_avx_buffer = if sse_avx_buf_size == 0 then 0 else a.sse_avx_buffer;
}

-- `memset(t->sse_avx_buffer, 0, sse_avx_buf_size)`, for a size that is a multiple of 8.
abbrev pub clear_buffer : (sse_avx_buf_size : ℕ) → Allocated → Threads → Threads
clear_buffer sse_avx_buf_size a s = record s {
  word = λ q.
      if leb a.sse_avx_buffer q && ltb q (a.sse_avx_buffer + sse_avx_buf_size) then 0 else s.word q;
}

-- The failures before the thread is filled in: `some` is the state with what was freed again.
abbrev pub refused : (sse_avx_buf_size : ℕ) → Allocated → Threads → Option Threads
refused sse_avx_buf_size a s =
    if a.thread == 0
    then some s
    else if not (sse_avx_buf_size == 0) && (a.sse_avx_buffer == 0)
    then some (free_all (a.thread ∷ []) s)
    else if a.kernel_stack == 0
    then some (
        free_all ((with_buffer sse_avx_buf_size a).sse_avx_buffer ∷ a.thread ∷ [])
          (clear_buffer sse_avx_buf_size a s))
    else none

abbrev pub no_stacks : Stacks
no_stacks = record {
  kernel_bottom = 0;
  kernel_size = 0;
  user_bottom = 0;
  user_top = 0;
  user_size = 0;
  page_guard_min = 0;
  page_guard_max = 0;
  sse_avx_buffer = 0;
  next_pthread = 0;
}

-- `thread_exit` is the address of the function.
unfoldable pub fill_thread :
    (thread_exit entry_point stack_size : ℕ) → Allocated → Threads → ℕ × Threads
fill_thread thread_exit entry_point stack_size a s =
    let top = add64 a.kernel_stack stack_size in
    let (rsp, word) = frame top thread_exit 0x10 0x08 entry_point s.word in
    (
      a.thread,
      record s {
        kernel =
            enqueue_thread a.thread
              (set_thread a.thread (new_thread rsp s.next_thread_id top 0) s.kernel);
        stacks = update s.stacks a.thread (record no_stacks {
          kernel_bottom = a.kernel_stack;
          kernel_size = stack_size;
          sse_avx_buffer = a.sse_avx_buffer;
        });
        word = word;
        next_thread_id = add64 s.next_thread_id 1;
      },
    )

-- 0 with the state after a failure, or else what follows.
abbrev pub or_null : Option Threads → ℕ × Threads → ℕ × Threads
or_null (some s) out = (0, s)
or_null none out = out

unfoldable pub create_thread :
    (sse_avx_buf_size thread_exit entry_point stack_size : ℕ) → Allocated → Threads → ℕ × Threads
create_thread sse_avx_buf_size thread_exit entry_point stack_size a s =
    or_null (refused sse_avx_buf_size a s) (
      fill_thread thread_exit entry_point stack_size (with_buffer sse_avx_buf_size a)
        (clear_buffer sse_avx_buf_size a s))

-- The thread becomes the first one of its process. `t->process->threads->prev = t` writes the link of the
-- ready queue.
abbrev pub join_process : (proc t : ℕ) → Threads → Threads
join_process proc t s = record s {
  kernel = if s.threads proc == 0 then s.kernel else set_prev (s.threads proc) t s.kernel;
  stacks = update s.stacks t (record no_stacks { next_pthread = s.threads proc });
  threads = update s.threads proc t;
}

-- The thread with both stacks; `us_list_head` and `cr3` are again as they were, and the process has the list
-- of its stacks.
unfoldable pub fill_user_thread :
    (proc entry_point kstack_size ustack_size : ℕ) → Allocated → Threads → ℕ × Threads
fill_user_thread proc entry_point kstack_size ustack_size a s =
    let (rsp, word) = frame a.user_stack 0xffffffffffff0000 0x1B 0x23 entry_point s.word in
    let k : Kernel = record s.kernel {
      process =
          update s.kernel.process proc
            (record (s.kernel.process proc) { ustacks_infos = a.us_list_head });
    } in
    let t = new_thread rsp s.next_thread_id (add64 a.kernel_stack kstack_size) proc in
    (
      a.thread,
      record s {
        kernel = enqueue_thread a.thread (set_thread a.thread t k);
        stacks = update s.stacks a.thread (record {
          kernel_bottom = a.kernel_stack;
          kernel_size = kstack_size;
          user_bottom = sub64 a.user_stack ustack_size;
          user_top = a.user_stack;
          user_size = ustack_size;
          page_guard_min = sub64 (sub64 a.user_stack 4096) 4096;
          page_guard_max = sub64 a.user_stack 4096;
          sse_avx_buffer = a.sse_avx_buffer;
          next_pthread = (s.stacks a.thread).next_pthread;
        });
        word = word;
        next_thread_id = add64 s.next_thread_id 1;
      },
    )

-- Without a user stack the thread stays in the list of its process.
unfoldable pub create_user_thread :
    (sse_avx_buf_size proc entry_point kstack_size ustack_size : ℕ)
    → Allocated
    → Threads
    → ℕ × Threads
create_user_thread sse_avx_buf_size proc entry_point kstack_size ustack_size a s =
    let b = with_buffer sse_avx_buf_size a in
    let s1 = join_process proc a.thread (clear_buffer sse_avx_buf_size a s) in
    or_null (refused sse_avx_buf_size a s) (
      if a.user_stack == 0
      then (0, free_all (b.sse_avx_buffer ∷ a.thread ∷ []) s1)
      else fill_user_thread proc entry_point kstack_size ustack_size b s1)
