-- ===== src/Sched/Frame.antt =====
-- Where proc_create and build_irq_frame of src/kernel/sched/sched.c put the first frame of a process.
use swift_bsd.Prelude.{
  ℕ, zero, suc, ◌+◌, ◌-◌, ◌*◌, ◌≤◌, ◌<◌, ◌≡◌, refl, ◌∙◌, arith, List, [], ◌∷◌, update, length,
  get_or, ap,
}
use swift_bsd.Sched.{Sched, kstack_size, put_words, clear_stack}
use swift_bsd.Sched.Calls.{build_irq_frame, irq_words, irq_frame_at, new_process, first_words}

put_words-outside :
    (a : ℕ) (xs : List ℕ) (words : ℕ → ℕ) (b : ℕ) → b < a → put_words a xs words b ≡ words b
unfolding put_words
put_words-outside a [] words b h = refl
put_words-outside a (x ∷ xs) words b h =
    put_words-outside (a + 8) xs (update words a x) b (omega arith) ∙ ground arith

put_words-behind :
    (a : ℕ) (xs : List ℕ) (words : ℕ → ℕ) (b : ℕ)
    → a + 8 * length xs ≤ b
    → put_words a xs words b ≡ words b
unfolding put_words
put_words-behind a [] words b h = refl
put_words-behind a (x ∷ xs) words b h =
    put_words-behind (a + 8) xs (update words a x) b (omega arith) ∙ ground arith

put_words-at :
    (a : ℕ) (xs : List ℕ) (words : ℕ → ℕ) (n d : ℕ)
    → n < length xs
    → put_words a xs words (a + 8 * n) ≡ get_or xs n d
unfolding put_words
put_words-at a [] words n d h = absurd (omega arith)
put_words-at a (x ∷ xs) words zero d h =
    let at : a + 8 * zero ≡ a = omega arith in
    ap (put_words (a + 8) xs (update words a x)) at
    ∙ put_words-outside (a + 8) xs (update words a x) a (omega arith)
    ∙ ground arith
put_words-at a (x ∷ xs) words (suc n) d h =
    let at : a + 8 * suc n ≡ a + 8 + 8 * n = omega arith in
    ap (put_words (a + 8) xs (update words a x)) at
    ∙ put_words-at (a + 8) xs (update words a x) n d (omega arith)

module _ {W : Type 0} (s : Sched W) (kstack : ℕ) where
  -- build_irq_frame starts its frame of 22 words 17 words below the end of the child's kernel stack, so the word
  -- just behind the stack is overwritten with the address that the child returns to, while the frame of
  -- proc_create leaves every word behind the stack as it was.
  pub build_irq_frame-past_stack :
      (rax_val idx pid entry rsp cr3 b : ℕ)
      → kstack + kstack_size ≤ b
      → ((build_irq_frame rax_val kstack s).1.words (kstack + kstack_size)
          ≡ s.words (s.syscall_frame_ptr + 32))
        × ((new_process idx pid entry rsp cr3 kstack s).words b ≡ s.words b)
  unfolding build_irq_frame new_process clear_stack
  build_irq_frame-past_stack rax_val idx pid entry rsp cr3 b h =
      let place : kstack + kstack_size ≡ irq_frame_at kstack + 8 * 17 = omega arith in
      let frame = kstack + kstack_size - 22 * 8 in
      (
        ap (put_words (irq_frame_at kstack) (irq_words s rax_val) s.words) place
            ∙ put_words-at (irq_frame_at kstack) (irq_words s rax_val) s.words 17 0 (omega arith),
        put_words-behind frame (first_words entry rsp) (clear_stack kstack s.words) b (omega arith)
            ∙ ground arith,
      )
