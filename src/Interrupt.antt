-- ===== src/Interrupt.antt =====
-- kernel/src/interrupt.c: the dispatch table and the masks of the two interrupt controllers. An entry of the
-- table with those linked to it is a list, empty where the entry has no handler; handlers are
-- addresses, not NULL, and leave the table as it is when they are called. A negative IRQ is refused like one above 15.
pub mod Register
mod Tests
use Prim.Native.Nat.{bit_and, bit_or}
use chaff.Prelude.{
  ℕ, zero, suc, ◌+◌, ◌-◌, ◌*◌, ◌/◌, ◌%◌, ◌^◌, Bool, true, false, not, ◌&&◌, ◌||◌, Option, none,
  some, List, [], ◌∷◌, ◌++◌, map, ltb, leb, ◌==◌, if◌then◌else◌, update,
}

-- `IntrDispatchEntry`
pub record Entry : Type 0 where
  pub handler : ℕ
  pub flags : ℕ

-- `IntrDispatchTable`, with what the ports 0x21 and 0xA1 hold.
pub record Interrupts : Type 0 where
  pub chains : ℕ → List Entry
  pub master : ℕ
  pub slave : ℕ

abbrev pub is_shared : ℕ → Bool
is_shared flags = not (bit_and flags 1 == 0)

-- `outb(port, inb(port) & ~bit)` and `outb(port, inb(port) | bit)`, of a byte.
abbrev pub clear_bit : ℕ → ℕ → ℕ
clear_bit k mask = bit_and mask (0xFFFFFFFF - 2 ^ k) % 256

abbrev pub set_bit : ℕ → ℕ → ℕ
set_bit k mask = bit_or mask (2 ^ k) % 256

-- "enable in PIC" and "Block in PIC".
abbrev pub enable : ℕ → Interrupts → Interrupts
enable irq s =
    if ltb 8 irq
    then record s { slave = clear_bit (irq - 8) s.slave }
    else record s { master = clear_bit irq s.master }

abbrev pub block : ℕ → Interrupts → Interrupts
block irq s =
    if ltb 8 irq
    then record s { slave = set_bit (irq - 8) s.slave }
    else record s { master = set_bit irq s.master }

abbrev pub set_chain : ℕ → List Entry → Interrupts → Interrupts
set_chain irq es s = record s { chains = update s.chains (0x20 + irq) es }

-- The part of `IntrRegister` after the test of the range, for what stands in the table.
pub add_entry : ℕ → Entry → List Entry → Interrupts → Bool × Interrupts
add_entry irq e [] s = (true, set_chain irq (e ∷ []) (enable irq s))
add_entry irq e (first ∷ rest) s =
    if not (is_shared e.flags) || not (is_shared first.flags)
    then (false, s)
    else (true, set_chain irq (first ∷ e ∷ rest) s)

-- `IntrRegister`
pub intr_register : ℕ → ℕ → ℕ → Interrupts → Bool × Interrupts
unfolding add_entry
intr_register irq flags handler s =
    if ltb 15 irq
    then (false, s)
    else add_entry irq (record { handler = handler; flags = flags }) (s.chains (0x20 + irq)) s

-- The entries without the first one with the handler; `none` if there is none.
pub remove_entry : ℕ → List Entry → Option (List Entry)
remove_entry handler [] = none
remove_entry handler (e ∷ es) =
    let rest = remove_entry handler es in
    if e.handler == handler then some es else elim rest [ none ↦ none | some es' ↦ some (e ∷ es') ]

abbrev pub is_empty : List Entry → Bool
is_empty [] = true
is_empty (e ∷ es) = false

-- `IntrUnRegister`
pub intr_unregister : ℕ → ℕ → Interrupts → Bool × Interrupts
unfolding remove_entry
intr_unregister irq handler s =
    if ltb 15 irq then (false, s) else elim (remove_entry handler (s.chains (0x20 + irq))) [
      | none ↦ (false, s)
      | some es ↦
          (true, (if is_empty es then block irq (set_chain irq es s) else set_chain irq es s))
    ]

-- What `IntrHandler` does.
pub data Action : Type 0 where
  call : ℕ → Action
  out_byte : ℕ → ℕ → Action
  yield_time : Action
  handle_signals : Action
  panic : ℕ → Action

-- The end of an interrupt of the controllers.
abbrev pub end_of_interrupt : ℕ → List Action
end_of_interrupt num =
    if ltb num 0x20
    then []
    else if ltb num 0x28
    then out_byte 0x20 0x20 ∷ []
    else out_byte 0xA0 0x20 ∷ out_byte 0x20 0x20 ∷ []

-- `IntrHandler`, where the number is that of the interrupt and `should_preempt` is what
-- `TimerShouldPreempt` says. It does not return from a panic.
pub intr_handler : ℕ → ℕ → Bool → Interrupts → List Action
intr_handler num cs should_preempt s =
    let after =
      if cs == 0x1B
      then if should_preempt then yield_time ∷ handle_signals ∷ [] else handle_signals ∷ []
      else [] in
    if ltb num 0x30
    then map (λ e. call e.handler) (s.chains num) ++ end_of_interrupt num ++ after
    else if num == 0x42
    then after
    else panic num ∷ []
