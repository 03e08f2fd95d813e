-- ===== src/Interrupt/Tests.antt =====
-- Runs of the interrupt dispatch, and its theorem at a concrete table.
use chaff.Prelude.{ℕ, ◌≡◌, refl, ◌⊎◌, true, false, [], ◌∷◌, ◌==◌, if◌then◌else◌, arith}
use chaff.Interrupt.{
  Interrupts, intr_register, intr_unregister, call, out_byte, handle_signals, intr_handler,
}
use chaff.Interrupt.Register.{unregister-register}

abbrev disk_handler : ℕ
disk_handler = 0xC0105000

abbrev network_handler : ℕ
network_handler = 0xC0106000

-- IRQ 11 with one handler, which shares it.
abbrev table : Interrupts
table = record {
  chains = λ n. if n == 43 then record { handler = disk_handler; flags = 1 } ∷ [] else [];
  master = 0xFB;
  slave = 0xF7;
}

dispatch_test :
    intr_handler 43 0x1B false table
    ≡ call disk_handler ∷ out_byte 0xA0 0x20 ∷ out_byte 0x20 0x20 ∷ handle_signals ∷ []
unfolding intr_handler
dispatch_test = refl

refuse_test : (intr_register 11 0 network_handler table).0 ≡ false
unfolding intr_register
refuse_test = refl

-- The first handler of IRQ 8 clears no bit of the second controller's mask, which has the bit of IRQ 8.
irq_8_test : (intr_register 8 0 network_handler table).1.slave ≡ 0xF7
unfolding intr_register
irq_8_test = refl

unregister-register_example :
    (((intr_register 11 1 network_handler table).0 ≡ true)
      × ((intr_unregister 11 network_handler (intr_register 11 1 network_handler table).1).0 ≡ true)
      × ((intr_unregister 11 network_handler (intr_register 11 1 network_handler table).1).1.chains
          ≡ table.chains))
    ⊎ (((intr_register 11 1 network_handler table).0 ≡ false)
        × ((intr_register 11 1 network_handler table).1 ≡ table))
unregister-register_example =
    unregister-register 11 1 network_handler table (omega arith)
      ((λ e. absurd (omega (arith, e))), tt)
