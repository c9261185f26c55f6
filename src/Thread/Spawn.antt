-- ===== src/Thread/Spawn.antt =====
-- What `create_thread` leaves: the thread in the ready queue with its frame.
use destin_x.Prelude.{ℕ, ◌+◌, ◌%◌, ◌≤◌, ◌<◌, ◌≡◌, ◌⊎◌, List, [], ◌∷◌, ◌++◌}
use destin_x.Thread.{ThreadState, Thread}
use destin_x.Thread.Queue.{IsRing}
use destin_x.Thread.Frame.{IsStack, frame_words, clean_top}
use destin_x.Thread.Create.{Threads, Allocated}

-- A thread that was created, with its frame at `rsp`.
pub record Created (thread_exit entry_point stack_size : ℕ) (a : Allocated) (s : Threads)
    (xs : List ℕ) (out : ℕ × Threads) : Type 0 where
  pub rsp : ℕ
  pub result : out.0 ≡ a.thread
  pub queued : IsRing out.1.kernel (xs ++ (a.thread ∷ []))
  pub state : (out.1.kernel.thread a.thread).state ≡ ThreadState.ready
  pub tid : (out.1.kernel.thread a.thread).tid ≡ s.next_thread_id
  pub stack : (out.1.kernel.thread a.thread).rsp ≡ rsp
  pub words :
      IsStack out.1.word rsp
        (frame_words (clean_top (a.kernel_stack + stack_size)) thread_exit 0x10 0x08 entry_point)
  pub aligned : (rsp + 160) % 16 ≡ 8
  pub buffer : (out.1.stacks a.thread).sse_avx_buffer ≡ a.sse_avx_buffer
  pub inside : a.kernel_stack ≤ rsp
  pub outside :
      (q : ℕ) → (q < a.kernel_stack) ⊎ (a.kernel_stack + stack_size ≤ q) → out.1.word q ≡ s.word q
