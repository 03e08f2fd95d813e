-- ===== src/Io/Devfs/Sound.antt =====
-- The names and the inodes of the registered devices belong together, also where one is added or removed.
use chaff.Prelude.{
  ℕ, ◌<◌, ◌≤◌, ◌≡◌, ◌≢◌, ap, subst, sym, ◌∙◌, inl, inr, false, none, some, List, ltb, ◌==◌,
  if◌then◌else◌, Bool-cases, arith,
}
use chaff.Io.Devfs.{max_devices, Devices, same_name, add_device, remove_device}
use chaff.Io.Devfs.Names.{
  none≢some, true≢false, some_injective, same_name_refl, same_name-equal, equal, differ, itself,
  set_name-same, set_name-other, update_same, update_other, update_eq,
}

-- A name that is found is that of a device at its inode, and the device at an inode is found by its name.
pub record IsSound (s : Devices) : Type 0 where
  pub found :
      (name : List ℕ) (d : ℕ)
      → s.files name ≡ some d
      → ((s.info d).name ≡ name) × (s.devices (s.info d).inode ≡ some d)
  pub back :
      (i d : ℕ)
      → s.devices i ≡ some d
      → (s.files (s.info d).name ≡ some d) × ((s.info d).inode ≡ i) × (i < max_devices)
  pub next : s.next_free_inode ≤ max_devices

-- What the two halves of `IsSound` say of a name or an inode and a device.
abbrev IsFound : Devices → List ℕ → ℕ → Type 0
IsFound s name d = ((s.info d).name ≡ name) × (s.devices (s.info d).inode ≡ some d)

abbrev IsBack : Devices → ℕ → ℕ → Type 0
IsBack s i d = (s.files (s.info d).name ≡ some d) × ((s.info d).inode ≡ i) × (i < max_devices)

-- Of a device whose fields stay.
abbrev IsSameDevice : Devices → Devices → ℕ → Type 0
IsSameDevice s v d = v.info d ≡ s.info d

IsFound-same :
    (s v : Devices) (name : List ℕ) (d : ℕ)
    → IsSameDevice s v d
    → IsFound s name d
    → v.devices (s.info d).inode ≡ s.devices (s.info d).inode
    → IsFound v name d
IsFound-same s v name d e (n, h) same =
    (ap (λ x. x.name) e ∙ n, ap (λ x. v.devices x.inode) e ∙ same ∙ h)

IsBack-same :
    (s v : Devices) (i d : ℕ)
    → IsSameDevice s v d
    → IsBack s i d
    → v.files (s.info d).name ≡ s.files (s.info d).name
    → IsBack v i d
IsBack-same s v i d e (f, n, l) same =
    (ap (λ x. v.files x.name) e ∙ same ∙ f, ap (λ x. x.inode) e ∙ n, l)

module _ (s : Devices) (sound : IsSound s) (d : ℕ) where
  module _ (i : ℕ) (free : s.devices i ≡ none) (unknown : s.files (s.info d).name ≡ none) where
    abbrev added : Devices
    added = add_device d i s

    added-other : (e : ℕ) → (d == e) ≡ false → added.info e ≡ s.info e
    added-other e b = update_other s.info d e (record (s.info d) { inode = i }) b

    apart : (name : List ℕ) (e : ℕ) → s.files name ≡ some e → (d == e) ≡ false
    apart name e h = differ d e (λ q. none≢some e (
        sym unknown
        ∙ ap (λ x. s.files (s.info x).name) q
        ∙ ap s.files (sound.found name e h).0
        ∙ h))

    added-itself : added.info d ≡ record (s.info d) { inode = i }
    added-itself = update_same s.info d (record (s.info d) { inode = i })

    added-IsFound : (name : List ℕ) (e : ℕ) → added.files name ≡ some e → IsFound added name e
    added-IsFound name e h = elim (Bool-cases (same_name (s.info d).name name)) [
      | inl b ↦
          subst (λ x. IsFound added name x)
            (some_injective d e (sym (set_name-same s.files (s.info d).name name (some d) b) ∙ h))
            (
              ap (λ x. x.name) added-itself ∙ same_name-equal (s.info d).name name b,
              ap (λ x. added.devices x.inode) added-itself ∙ update_same s.devices i (some d),
            )
      | inr b ↦
          let f = sym (set_name-other s.files (s.info d).name name (some d) b) ∙ h in
          let (n, at) = sound.found name e f in
          IsFound-same s added name e (added-other e (apart name e f)) (n, at)
            (update_other s.devices i (s.info e).inode (some d)
              (differ i (s.info e).inode (λ q. none≢some e (sym free ∙ ap s.devices q ∙ at))))
    ]

    added-IsBack : i < max_devices → (j e : ℕ) → added.devices j ≡ some e → IsBack added j e
    added-IsBack l j e h = elim (Bool-cases (i == j)) [
      | inl b ↦
          subst (λ x. IsBack added j x)
            (some_injective d e (sym (update_eq s.devices i j (some d) b) ∙ h))
            (
              ap (λ x. added.files x.name) added-itself
                  ∙ set_name-same s.files (s.info d).name (s.info d).name (some d)
                      (same_name_refl (s.info d).name),
              ap (λ x. x.inode) added-itself ∙ equal i j b,
              subst (λ x. x < max_devices) (equal i j b) l,
            )
      | inr b ↦
          let (f, n, k) = sound.back j e (sym (update_other s.devices i j (some d) b) ∙ h) in
          IsBack-same s added j e (added-other e (apart (s.info e).name e f)) (f, n, k)
            (set_name-other s.files (s.info d).name (s.info e).name (some d) (unlike e f))
    ]
      where
        unlike :
            (e : ℕ)
            → s.files (s.info e).name ≡ some e
            → same_name (s.info d).name (s.info e).name ≡ false
        unlike e f = elim (Bool-cases (same_name (s.info d).name (s.info e).name)) [
          | inr b ↦ b
          | inl b ↦ absurd (none≢some e (sym unknown ∙ ap s.files (same_name-equal _ _ b) ∙ f))
        ]

    pub add_device-IsSound : i < max_devices → IsSound added
    add_device-IsSound l = record {
      found = added-IsFound;
      back = added-IsBack l;
      next = ground (arith, l);
    }

  module _ (registered : s.devices (s.info d).inode ≡ some d) where
    abbrev removed : Devices
    removed = remove_device d s

    removed-other : (e : ℕ) → (d == e) ≡ false → removed.info e ≡ s.info e
    removed-other e b = update_other s.info d e (record (s.info d) { inode = 0 }) b

    removed-IsFound : (name : List ℕ) (e : ℕ) → removed.files name ≡ some e → IsFound removed name e
    removed-IsFound name e h = elim (Bool-cases (same_name (s.info d).name name)) [
      | inl b ↦ absurd (none≢some e (sym (set_name-same s.files (s.info d).name name none b) ∙ h))
      | inr b ↦
          let f = sym (set_name-other s.files (s.info d).name name none b) ∙ h in
          let (n, at) = sound.found name e f in
          IsFound-same s removed name e
            (removed-other e (differ d e (λ q. unlike b (ap (λ x. (s.info x).name) q ∙ n)))) (n, at)
            (update_other s.devices (s.info d).inode (s.info e).inode none (
              differ _ _ (λ q. unlike b (
                ap (λ x. (s.info x).name)
                  (some_injective d e (sym registered ∙ ap s.devices q ∙ at))
                ∙ n))))
    ]
      where
        unlike : {name : List ℕ} → same_name (s.info d).name name ≡ false → (s.info d).name ≢ name
        unlike b q =
            true≢false
              (sym (same_name_refl (s.info d).name) ∙ ap (λ x. same_name (s.info d).name x) q ∙ b)

    removed-IsBack : (j e : ℕ) → removed.devices j ≡ some e → IsBack removed j e
    removed-IsBack j e h = elim (Bool-cases ((s.info d).inode == j)) [
      | inl b ↦ absurd (none≢some e (sym (update_eq s.devices (s.info d).inode j none b) ∙ h))
      | inr b ↦
          let (f, n, k) =
            sound.back j e (sym (update_other s.devices (s.info d).inode j none b) ∙ h) in
          IsBack-same s removed j e (removed-other e (apart_from j e b n)) (f, n, k)
            (set_name-other s.files (s.info d).name (s.info e).name none (unlike j e b f n))
    ]
      where
        apart_from :
            (j e : ℕ) → ((s.info d).inode == j) ≡ false → (s.info e).inode ≡ j → (d == e) ≡ false
        apart_from j e b n = differ d e (λ q.
            true≢false
              (sym (itself j) ∙ ap (λ x. x == j) (sym n ∙ ap (λ x. (s.info x).inode) (sym q)) ∙ b))

        unlike :
            (j e : ℕ)
            → ((s.info d).inode == j) ≡ false
            → s.files (s.info e).name ≡ some e
            → (s.info e).inode ≡ j
            → same_name (s.info d).name (s.info e).name ≡ false
        unlike j e b f n = elim (Bool-cases (same_name (s.info d).name (s.info e).name)) [
          | inr c ↦ c
          | inl c ↦ absurd (
              true≢false (
                sym (itself e)
                ∙ ap (λ x. x == e)
                    (some_injective e d (
                      sym f
                      ∙ ap s.files (sym (same_name-equal _ _ c))
                      ∙ (sound.back _ d registered).0))
                ∙ apart_from j e b n))
        ]

    pub remove_device-IsSound : IsSound removed
    remove_device-IsSound = record {
      found = removed-IsFound;
      back = removed-IsBack;
      next = lower (s.info d).inode s.next_free_inode (sound.back _ d registered).2 sound.next;
    }
      where
        lower :
            (i n : ℕ) → i < max_devices → n ≤ max_devices → (if ltb i n then i else n) ≤ max_devices
        lower i n l k = ground (arith, l, k)
