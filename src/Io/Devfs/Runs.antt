-- ===== src/Io/Devfs/Runs.antt =====
-- The names and the inodes of the devices after any calls of `IoDevFsRegister` and `IoDevFsUnRegister`.
use chaff.Prelude.{
  ℕ, zero, suc, ◌+◌, ◌-◌, ◌<◌, ◌≤◌, ◌≡◌, ap, ◌⊎◌, inl, inr, false, not, ◌||◌, Option, none, some,
  List, [], ◌∷◌, leb, ◌==◌, Bool-cases, Option-cases, arith,
}
use chaff.Io.Devfs.{max_devices, Devices, is_device, find_free, free_inode, register, unregister}
use chaff.Io.Devfs.Names.{equal}
use chaff.Io.Devfs.Sound.{IsSound, add_device-IsSound, remove_device-IsSound}

-- The loop ends at an inode that is free, or behind the last one.
pub find_free-free :
    (devices : ℕ → Option ℕ) (n i : ℕ)
    → (find_free devices n i ≡ i + n)
      ⊎ ((find_free devices n i < i + n) × (devices (find_free devices n i) ≡ none))
unfolding find_free
find_free-free devices zero i = inl (ground arith)
find_free-free devices (suc n) i = elim (Option-cases (devices i)) [
  | inl e ↦ rw (e, find_free) (inr (ground arith, e))
  | inr (d, e) ↦ rw (e, find_free) (later (find_free-free devices n (i + 1)))
]
  where
    later :
        (find_free devices n (i + 1) ≡ i + 1 + n)
          ⊎ ((find_free devices n (i + 1) < i + 1 + n)
              × (devices (find_free devices n (i + 1)) ≡ none))
        → (find_free devices n (i + 1) ≡ i + suc n)
          ⊎ ((find_free devices n (i + 1) < i + suc n)
              × (devices (find_free devices n (i + 1)) ≡ none))
    later (inl e) = inl (ground (arith, e))
    later (inr (l, e)) = inr (ground (arith, l), e)

pub free_inode-free :
    (s : Devices)
    → s.next_free_inode ≤ max_devices
    → (free_inode s == max_devices) ≡ false
    → (free_inode s < max_devices) × (s.devices (free_inode s) ≡ none)
free_inode-free s l e =
    elim (find_free-free s.devices (max_devices - s.next_free_inode) s.next_free_inode) [
      | inl h ↦ absurd (full (free_inode s) h e)
      | inr (h, f) ↦ (below (free_inode s) h, f)
    ]
  where
    full :
        (i : ℕ)
        → i ≡ s.next_free_inode + (max_devices - s.next_free_inode)
        → (i == max_devices) ≡ false
        → ⊥
    full i h e = ground (arith, l, h, e)

    below : (i : ℕ) → i < s.next_free_inode + (max_devices - s.next_free_inode) → i < max_devices
    below i h = ground (arith, l, h)

module _ (s : Devices) (sound : IsSound s) (d : ℕ) where
  pub register-IsSound : IsSound (register d s).0
  unfolding register
  register-IsSound = elim (Bool-cases (free_inode s == max_devices)) [
    | inl e ↦ rw (e, register) sound
    | inr e ↦ elim (Option-cases (s.files (s.info d).name)) [
      | inr (a, f) ↦ rw (e, register) (rw f sound)
      | inl f ↦
          let (l, free) = free_inode-free s sound.next e in
          rw (e, register) (rw f (add_device-IsSound s sound d (free_inode s) free f l))
    ]
  ]

  pub unregister-IsSound : IsSound (unregister d s).0
  unfolding unregister
  unregister-IsSound =
      elim (Bool-cases
        (leb max_devices (s.info d).inode || not (is_device (s.devices (s.info d).inode) d))) [
          | inl e ↦ rw (e, unregister) sound
          | inr e ↦ rw (e, unregister) (remove_device-IsSound s sound d (there _ e))
        ]
    where
      there :
          (o : Option ℕ)
          → (leb max_devices (s.info d).inode || not (is_device o d)) ≡ false
          → o ≡ some d
      there none e = ground (arith, e)
      there (some x) e = ap (λ y. some y) (equal x d (ground (arith, e)))

-- A call of the two functions that change the devices.
pub data Request : Type 0 where
  registers unregisters : ℕ → Request

unfoldable pub run : List Request → Devices → Devices
run [] s = s
run (registers d ∷ rs) s = run rs (register d s).0
run (unregisters d ∷ rs) s = run rs (unregister d s).0

-- Any calls of `IoDevFsRegister` and `IoDevFsUnRegister` lead from a state in which the names and the inodes of
-- the devices belong together to one in which they do: a name is found for a device exactly where
-- the device is at its inode and has the name.
pub run-IsSound : (rs : List Request) (s : Devices) → IsSound s → IsSound (run rs s)
unfolding run
run-IsSound [] s sound = sound
run-IsSound (registers d ∷ rs) s sound =
    run-IsSound rs (register d s).0 (register-IsSound s sound d)
run-IsSound (unregisters d ∷ rs) s sound =
    run-IsSound rs (unregister d s).0 (unregister-IsSound s sound d)
