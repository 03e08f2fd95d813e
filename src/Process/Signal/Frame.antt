-- ===== src/Process/Signal/Frame.antt =====
-- kernel/src/process/signal.c: the frame that `HandleCustomSignal` puts on the user's stack, and
-- `ProcSignalReturn`. Memory is its words of 32 bits by address; those of a frame do not overlap, so
-- that the order in which they are written makes no difference.
use Prim.Native.Nat.{bit_and, bit_or}
use chaff.Prelude.{
  ℕ, zero, suc, ◌*◌, ◌^◌, ◌≤◌, ◌<◌, ◌≡◌, refl, ap, ◌∙◌, Bool, true, false, Option, none, some, List,
  [], ◌∷◌, ◌==◌, if◌then◌else◌, arith, update, add32, sub32, u32_mod, length,
}
use chaff.Prelude.Bits.{complement}

-- The fields of `IntrContext` that the two functions use.
pub record Context : Type 0 where
  pub edi : ℕ
  pub esi : ℕ
  pub ebp : ℕ
  pub ebx : ℕ
  pub edx : ℕ
  pub ecx : ℕ
  pub eax : ℕ
  pub eip : ℕ
  pub cs : ℕ
  pub eflags : ℕ
  pub esp : ℕ

-- The address of a word of a stack.
abbrev pub word_at : ℕ → ℕ → ℕ
word_at stack k = add32 stack (4 * k)

pub store_words : ℕ → List ℕ → (ℕ → ℕ) → ℕ → ℕ
store_words a [] memory = memory
store_words a (x ∷ xs) memory = update (store_words (add32 a 4) xs memory) a x

abbrev pub frame_words : Context → ℕ → ℕ → List ℕ
frame_words c stack num =
    word_at stack 2
    ∷ num
    ∷ 0x00EEB858
    ∷ 0x42CD0000
    ∷ c.esp
    ∷ c.eflags
    ∷ c.eip
    ∷ c.eax
    ∷ c.ecx
    ∷ c.edx
    ∷ c.ebx
    ∷ c.ebp
    ∷ c.esi
    ∷ c.edi
    ∷ []

-- `HandleCustomSignal`, with what `MemCommitUserForWrite` returns; `none` is the call of
-- `ProcExitProcess`.
pub handle_custom : Bool → Context → ℕ → ℕ → (ℕ → ℕ) → Option (Context × (ℕ → ℕ))
unfolding store_words
handle_custom committed c handler num memory =
    let stack = sub32 c.esp (14 * 4) in
    if committed
    then some (
      record c { esp = stack; eip = handler; eflags = bit_and c.eflags (complement (2 ^ 10)) },
      store_words stack (frame_words c stack num) memory,
    )
    else none

pub data Return : Type 0 where
  returned : Context → Return
  kernel_mode : Return
  unreadable : Return

-- `ProcSignalReturn`, with what `MemCommitUserForRead` returns; where that is false it goes on to
-- `ProcSignalSendOrCrash` with SIGSEGV.
pub signal_return : Bool → Context → (ℕ → ℕ) → Return
signal_return committed c memory =
    if c.cs == 0x1B
    then if committed
      then returned (record c {
        esp = memory (word_at c.esp 2);
        eflags = bit_or (bit_and (memory (word_at c.esp 3)) 0xCFF) 0x200;
        eip = memory (word_at c.esp 4);
        eax = memory (word_at c.esp 5);
        ecx = memory (word_at c.esp 6);
        edx = memory (word_at c.esp 7);
        ebx = memory (word_at c.esp 8);
        ebp = memory (word_at c.esp 9);
        esi = memory (word_at c.esp 10);
        edi = memory (word_at c.esp 11);
      })
      else unreadable
    else kernel_mode

abbrev nth : ℕ → List ℕ → ℕ
nth k [] = 0
nth zero (x ∷ xs) = x
nth (suc k) (x ∷ xs) = nth k xs

load-store_words :
    (xs : List ℕ) (a k : ℕ) (memory : ℕ → ℕ)
    → a < u32_mod
    → k < length xs
    → length xs ≤ 14
    → store_words a xs memory (word_at a k) ≡ nth k xs
unfolding store_words
load-store_words [] a k memory l h m = absurd (omega arith)
load-store_words (x ∷ xs) a zero memory l h m = rw same refl
  where
    same : (a == word_at a 0) ≡ true
    same = ground arith
load-store_words (x ∷ xs) a (suc k) memory l h m = rw other (
    ap (store_words (add32 a 4) xs memory) address
    ∙ load-store_words xs (add32 a 4) k memory (omega arith) (omega arith) (omega arith))
  where
    other : (a == word_at a (suc k)) ≡ false
    other = ground arith

    address : word_at a (suc k) ≡ word_at (add32 a 4) k
    address = omega arith

-- A word of the frame, from where the stack pointer is when `ProcSignalReturn` is called.
frame_word :
    (c : Context) (stack num k : ℕ) (memory : ℕ → ℕ)
    → stack < u32_mod
    → k < 12
    → store_words stack (frame_words c stack num) memory (word_at (add32 stack 8) k)
      ≡ nth (suc (suc k)) (frame_words c stack num)
frame_word c stack num k memory l h =
    ap (store_words stack (frame_words c stack num) memory) address
    ∙ load-store_words (frame_words c stack num) stack (suc (suc k)) memory l (omega arith)
        (omega arith)
  where
    address : word_at (add32 stack 8) k ≡ word_at stack (suc (suc k))
    address = omega arith

-- Where the user's stack can be written and read: a signal's handler starts at its address, with the
-- signal's number as its parameter and the code at the third word of the frame as its return
-- address. If the handler leaves the frame as it was and comes back to that code, which pops the
-- parameter, then `ProcSignalReturn` from user mode restores the registers that the signal
-- interrupted, whatever the handler did to them, and of the flags the ones that a program may set.
pub signal_return-handle_custom :
    (c d : Context) (handler num : ℕ) (memory : ℕ → ℕ)
    → let stack = sub32 c.esp 56 in
      let memory' = store_words stack (frame_words c stack num) memory in
      (handle_custom true c handler num memory
        ≡ some (
          record c { esp = stack; eip = handler; eflags = bit_and c.eflags (complement (2 ^ 10)) },
          memory',
        ))
      × (memory' stack ≡ word_at stack 2)
      × (memory' (word_at stack 1) ≡ num)
      × (signal_return true (record d { cs = 0x1B; esp = add32 stack 8 }) memory'
          ≡ returned (record c { cs = 0x1B; eflags = bit_or (bit_and c.eflags 0xCFF) 0x200 }))
unfolding handle_custom signal_return
signal_return-handle_custom c d handler num memory = (
  refl,
  ap (store_words stack (frame_words c stack num) memory) first
      ∙ load-store_words (frame_words c stack num) stack 0 memory below (omega arith) (omega arith),
  load-store_words (frame_words c stack num) stack 1 memory below (omega arith) (omega arith),
  rw
      (
        word 2 (omega arith),
        word 3 (omega arith),
        word 4 (omega arith),
        word 5 (omega arith),
        word 6 (omega arith),
        word 7 (omega arith),
        word 8 (omega arith),
        word 9 (omega arith),
        word 10 (omega arith),
        word 11 (omega arith),
      )
      refl,
)
  where
    stack : ℕ
    stack = sub32 c.esp 56

    below : stack < u32_mod
    below = omega arith

    first : stack ≡ word_at stack 0
    first = omega (arith, below)

    word :
        (k : ℕ)
        → (k < 12)
        → store_words stack (frame_words c stack num) memory (word_at (add32 stack 8) k)
          ≡ nth (suc (suc k)) (frame_words c stack num)
    word k h = frame_word c stack num k memory below h
