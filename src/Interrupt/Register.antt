-- ===== src/Interrupt/Register.antt =====
-- `IntrRegister` and `IntrUnRegister` of a handler.
use mathlib.Core.Path.{fun_ext}
use chaff.Prelude.{
  ℕ, ◌+◌, ◌≤◌, ◌≡◌, ◌≢◌, refl, ap, sym, ◌∙◌, ◌⊎◌, inl, inr, true, false, not, ◌||◌, some, List, [],
  ◌∷◌, All, ltb, ◌==◌, if◌then◌else◌, arith, Bool-cases, update,
}
use chaff.Interrupt.{
  Entry, Interrupts, is_shared, enable, block, set_chain, add_entry, intr_register, remove_entry,
  is_empty, intr_unregister,
}

-- No entry has the handler.
abbrev pub IsMissing : ℕ → List Entry → Type 0
IsMissing handler es = All (λ e. e.handler ≢ handler) es

-- The entries that `IntrRegister` leaves, without the new one.
remove_entry-first :
    (handler flags : ℕ) (es : List Entry)
    → remove_entry handler (record { handler = handler; flags = flags } ∷ es) ≡ some es
unfolding remove_entry
remove_entry-first handler flags es = rw same refl
  where
    same : (handler == handler) ≡ true
    same = ground arith

remove_entry-second :
    (handler flags : ℕ) (first : Entry) (es : List Entry)
    → first.handler ≢ handler
    → remove_entry handler (first ∷ record { handler = handler; flags = flags } ∷ es)
      ≡ some (first ∷ es)
unfolding remove_entry
remove_entry-second handler flags first es d = rw (differ d) (rw same refl)
  where
    same : (handler == handler) ≡ true
    same = ground arith

    differ : first.handler ≢ handler → (first.handler == handler) ≡ false
    differ d = ground (arith, d)

enable-chains : (irq : ℕ) (s : Interrupts) → (enable irq s).chains ≡ s.chains
enable-chains irq s = elim (Bool-cases (ltb 8 irq)) [ inl e ↦ rw e refl | inr e ↦ rw e refl ]

block-chains : (irq : ℕ) (s : Interrupts) → (block irq s).chains ≡ s.chains
block-chains irq s = elim (Bool-cases (ltb 8 irq)) [ inl e ↦ rw e refl | inr e ↦ rw e refl ]

-- Chains that are set twice, and set to what they were.
update_back :
    (chains : ℕ → List Entry) (n : ℕ) (new old : List Entry)
    → chains n ≡ old
    → update (update chains n new) n old ≡ chains
update_back chains n new old e = fun_ext (λ m. elim (Bool-cases (n == m)) [
  | inl h ↦ rw h (sym e ∙ ap chains (equal m h))
  | inr h ↦ rw h refl
])
  where
    equal : (m : ℕ) → (n == m) ≡ true → n ≡ m
    equal m h = ground (arith, h)

-- `IntrUnRegister` of a handler whose removal leaves the entries that stood there before.
unregister_lem :
    (irq handler : ℕ) (new old : List Entry) (s t : Interrupts)
    → irq ≤ 15
    → t.chains ≡ s.chains
    → s.chains (0x20 + irq) ≡ old
    → remove_entry handler new ≡ some old
    → ((intr_unregister irq handler (set_chain irq new t)).0 ≡ true)
      × ((intr_unregister irq handler (set_chain irq new t)).1.chains ≡ s.chains)
unfolding intr_unregister
unregister_lem irq handler new old s t h c o r =
    rw (small h) (rw (same (0x20 + irq)) (rw r (refl, back)))
  where
    small : irq ≤ 15 → ltb 15 irq ≡ false
    small h = ground (arith, h)

    same : (n : ℕ) → (n == n) ≡ true
    same n = ground arith

    restored : update (update t.chains (0x20 + irq) new) (0x20 + irq) old ≡ s.chains
    restored = update_back t.chains (0x20 + irq) new old (ap (λ f. f (0x20 + irq)) c ∙ o) ∙ c

    back :
        (if is_empty old
          then block irq (set_chain irq old (set_chain irq new t))
          else set_chain irq old (set_chain irq new t)).chains
        ≡ s.chains
    back = elim (Bool-cases (is_empty old)) [
      | inl e ↦ rw e (block-chains irq (set_chain irq old (set_chain irq new t)) ∙ restored)
      | inr e ↦ rw e restored
    ]

-- Registration, for the entries that stand in the table.
add_entry_lem :
    (irq flags handler : ℕ) (es : List Entry) (s : Interrupts)
    → irq ≤ 15
    → s.chains (0x20 + irq) ≡ es
    → IsMissing handler es
    → let r = add_entry irq (record { handler = handler; flags = flags }) es s in
      ((r.0 ≡ true)
        × ((intr_unregister irq handler r.1).0 ≡ true)
        × ((intr_unregister irq handler r.1).1.chains ≡ s.chains))
      ⊎ ((r.0 ≡ false) × (r.1 ≡ s))
unfolding add_entry
add_entry_lem irq flags handler [] s h c m =
    let (done, back) =
      unregister_lem irq handler (record { handler = handler; flags = flags } ∷ []) [] s
        (enable irq s) h (enable-chains irq s) c (remove_entry-first handler flags []) in
    inl (refl, done, back)
add_entry_lem irq flags handler (first ∷ rest) s h c (d, m) =
    elim (Bool-cases (not (is_shared flags) || not (is_shared first.flags))) [
      | inl e ↦ rw e (inr (refl, refl))
      | inr e ↦
          let (done, back) =
            unregister_lem irq handler (first ∷ record { handler = handler; flags = flags } ∷ rest)
              (first ∷ rest) s s h refl c (remove_entry-second handler flags first rest d) in
          rw e (inl (refl, done, back))
    ]

-- `IntrRegister` of a handler that an IRQ does not have: either it returns true, and `IntrUnRegister` of the
-- handler then returns true and leaves every IRQ with the handlers that it had, in their order; or
-- it returns false, and nothing changes.
pub unregister-register :
    (irq flags handler : ℕ) (s : Interrupts)
    → irq ≤ 15
    → IsMissing handler (s.chains (0x20 + irq))
    → let r = intr_register irq flags handler s in
      ((r.0 ≡ true)
        × ((intr_unregister irq handler r.1).0 ≡ true)
        × ((intr_unregister irq handler r.1).1.chains ≡ s.chains))
      ⊎ ((r.0 ≡ false) × (r.1 ≡ s))
unfolding intr_register
unregister-register irq flags handler s h m =
    rw (small h) (add_entry_lem irq flags handler (s.chains (0x20 + irq)) s h refl m)
  where
    small : irq ≤ 15 → ltb 15 irq ≡ false
    small h = ground (arith, h)
