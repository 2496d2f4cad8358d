-- ===== src/Pipeline/Jbod/Routing.antt =====
-- Where lib/spdk/SpdkJBODBdev.cpp sends a read and a removal.
use daqdb.Base.{
  leb, ℕ, zero, suc, ◌<◌, ◌≡◌, ◌≢◌, refl, ap, sym, ◌∙◌, ◌⊎◌, inl, inr, subst, Bool, true, Option,
  none, some, List, [], ◌∷◌, ◌++◌, get_elem?, length, arith, Bool-cases, Option-cases, length-snoc,
  get_elem?-append_left, ==_refl, ==_false, leb-false, true_ne_false,
}
use daqdb.Base.Int.{ℤ, pos, negsuc}
use daqdb.Pipeline.Jbod.{
  PciAddr, max_devices, BdevOps, JbodDevice, Jbod, max_hash, hash_addr, same_addr, Handed, handed,
  refused, undefined, write_hash, add_device, jbod_init, new_jbod, find_device, hand_to_device,
  hand_by_hash, jbod_read, jbod_remove,
}

-- The device that a task was handed to
abbrev pub target : {D : Type 0} → Handed D → Option ℕ
target refused = none
target (handed i b j) = some i
target undefined = none

-- Each device has a place in the table, and its place names it.
abbrev pub Indexed : {D : Type 0} → Jbod D → Type 0
Indexed j =
    (i : ℕ) (d : JbodDevice _)
    → get_elem? j.devices i ≡ some d
    → (hash_addr d.addr < max_hash) × (j.device_hash (hash_addr d.addr) ≡ pos i)

same_addr-hash : (a b : PciAddr) → same_addr a b ≡ true → hash_addr a ≡ hash_addr b
same_addr-hash a b h = ground arith

same_addr_refl : (a : PciAddr) → same_addr a a ≡ true
same_addr_refl a = ground arith

pos_injective : {m n : ℕ} → pos m ≡ pos n → m ≡ n
pos_injective e = cc

pos_ne_negsuc : {m n : ℕ} → pos m ≡ negsuc n → ⊥
pos_ne_negsuc e = cc

write_hash_self : (t : ℕ → ℤ) (h : ℕ) (v : ℤ) → write_hash t h v h ≡ v
write_hash_self t h v = rw (==_refl h)

write_hash_ne : (t : ℕ → ℤ) (h k : ℕ) (v : ℤ) → k ≢ h → write_hash t h v k ≡ t k
write_hash_ne t h k v ne = rw (==_false k h ne)

module _ {A : Type 0} where
  some_injective : {x y : A} → some x ≡ some y → x ≡ y
  some_injective e = cc

  none_ne_some : {x : A} → none ≡ some x → ⊥
  none_ne_some e = cc

  snoc-cases :
      (xs : List A) (y d : A) (i : ℕ)
      → get_elem? (xs ++ y ∷ []) i ≡ some d
      → (get_elem? xs i ≡ some d) ⊎ ((i ≡ length xs) × (y ≡ d))
  snoc-cases [] y d zero h = inr (refl, cc)
  snoc-cases [] y d (suc i) h = inl h
  snoc-cases (x ∷ xs) y d zero h = inl h
  snoc-cases (x ∷ xs) y d (suc i) h = elim (snoc-cases xs y d i h) [
    | inl e ↦ inl e
    | inr (e, q) ↦ inr (ap suc e, q)
  ]

abbrev addr_of : {D : Type 0} → JbodDevice D → Option (JbodDevice D) → PciAddr
addr_of d none = d.addr
addr_of d (some e) = e.addr

module _ {A : Type 0} where
  get_elem?-length : (xs : List A) (y : A) → get_elem? (xs ++ y ∷ []) (length xs) ≡ some y
  get_elem?-length [] y = refl
  get_elem?-length (x ∷ xs) y = get_elem?-length xs y

  get_elem?_below : (xs : List A) (i : ℕ) (d : A) → get_elem? xs i ≡ some d → i < length xs
  get_elem?_below [] i d h = absurd (none_ne_some h)
  get_elem?_below (x ∷ xs) zero d h = omega arith
  get_elem?_below (x ∷ xs) (suc i) d h = omega (arith, get_elem?_below xs i d h)

module _ {D : Type 0} where
  find_device-only :
      (ds : List (JbodDevice D)) (i : ℕ) (d : JbodDevice D)
      → get_elem? ds i ≡ some d
      → ((m : ℕ) (e : JbodDevice D)
          → get_elem? ds m ≡ some e
          → same_addr d.addr e.addr ≡ true
          → m ≡ i)
      → find_device d.addr ds ≡ some i
  unfolding find_device
  find_device-only [] i d h only = absurd (true_ne_false cc)
  find_device-only (x ∷ ds) zero d h only =
      let same : same_addr d.addr x.addr ≡ true =
        ap (λ o. same_addr d.addr (addr_of d o)) h ∙ same_addr_refl d.addr in
      rw (same)
  find_device-only (x ∷ ds) (suc i) d h only =
      let rest = find_device-only ds i d h (λ m e at same. omega (arith, only (suc m) e at same)) in
      elim (Bool-cases (same_addr d.addr x.addr)) [
        | inl same ↦ absurd (omega (arith, only 0 x refl same))
        | inr other ↦ rw (other, rest)
      ]

  hash_unique :
      (j : Jbod D) (i m : ℕ) (d e : JbodDevice D)
      → Indexed j
      → get_elem? j.devices i ≡ some d
      → get_elem? j.devices m ≡ some e
      → same_addr d.addr e.addr ≡ true
      → m ≡ i
  hash_unique j i m d e ix h k same =
      pos_injective (
        sym (ix m e k).1
        ∙ ap j.device_hash (sym (same_addr-hash d.addr e.addr same))
        ∙ (ix i d h).1)

  Indexed-find_device :
      (j : Jbod D) (i : ℕ) (d : JbodDevice D)
      → Indexed j
      → get_elem? j.devices i ≡ some d
      → find_device d.addr j.devices ≡ some i
  Indexed-find_device j i d ix h =
      find_device-only j.devices i d h (λ m e k same. hash_unique j i m d e ix h k same)

  added :
      (addr : PciAddr) (bdev : D) (j k : Jbod D)
      → add_device addr bdev j ≡ some k
      → (hash_addr addr < max_hash)
        × (k ≡ record j {
          devices = j.devices ++ record { addr = addr; bdev = bdev; num = length j.devices } ∷ [];
          device_hash = write_hash j.device_hash (hash_addr addr) (pos (length j.devices));
        })
  unfolding add_device
  added addr bdev j k h = ground arith

  add_device-Indexed :
      (addr : PciAddr) (bdev : D) (j k : Jbod D)
      → Indexed j
      → j.device_hash (hash_addr addr) ≡ negsuc 0
      → add_device addr bdev j ≡ some k
      → Indexed k
  add_device-Indexed addr bdev j k ix free h =
      let (small, e) = added addr bdev j k h in
      subst (λ j. Indexed j) (sym e)
        (λ i d at. elim (snoc-cases j.devices _ d i at) [
          | inl old ↦
              let (below, place) = ix i d old in
              (
                below,
                write_hash_ne j.device_hash (hash_addr addr) (hash_addr d.addr) _
                      (λ q. pos_ne_negsuc (sym place ∙ ap j.device_hash q ∙ free))
                    ∙ place,
              )
          | inr (last, y) ↦
              let same : addr ≡ d.addr = ap JbodDevice.addr y in
              (
                subst (λ a. hash_addr a < max_hash) same small,
                ap (write_hash j.device_hash (hash_addr addr) (pos (length j.devices)))
                      (ap hash_addr (sym same))
                    ∙ write_hash_self j.device_hash (hash_addr addr) (pos (length j.devices))
                    ∙ ap pos (sym last),
              )
        ])

  find_device-append :
      (a : PciAddr) (ds es : List (JbodDevice D)) (i : ℕ)
      → find_device a ds ≡ some i
      → find_device a (ds ++ es) ≡ some i
  unfolding find_device
  find_device-append a [] es i h = absurd (none_ne_some h)
  find_device-append a (x ∷ ds) es i h = elim (Bool-cases (same_addr a x.addr)) [
    | inl same ↦ rw (same) (rw (same) at h)
    | inr other ↦ elim (Option-cases (find_device a ds)) [
      | inl e ↦ absurd (none_ne_some (rw (other, e) at h))
      | inr (m, e) ↦ rw (other, find_device-append a ds es m e) (rw (other, e) at h)
    ]
  ]

  -- Every device that init opens finds its place in the table free: no two of them have the same hash.
  abbrev pub Spread : List (PciAddr × Option D) → (ℕ → ℤ) → ℕ → Type 0
  Spread [] table n = Unit
  Spread ((addr, none) ∷ ds) table n = Unit
  Spread ((addr, some bdev) ∷ ds) table n =
      (table (hash_addr addr) ≡ negsuc 0)
      × Spread ds (write_hash table (hash_addr addr) (pos n)) (suc n)

  opened-Spread :
      (addr : PciAddr) (bdev : D) (ds : List (PciAddr × Option D)) (j l : Jbod D)
      → add_device addr bdev j ≡ some l
      → Spread ds
          (write_hash j.device_hash (hash_addr addr) (pos (length j.devices)))
          (suc (length j.devices))
      → Spread ds l.device_hash (length l.devices)
  opened-Spread addr bdev ds j l e sp =
      let (small, after) = added addr bdev j l e in
      subst (λ l. Spread ds l.device_hash (length l.devices)) (sym after)
        (subst
          (λ n. Spread ds (write_hash j.device_hash (hash_addr addr) (pos (length j.devices))) n)
          (sym (length-snoc j.devices _)) sp)

  jbod_init-Indexed :
      (ds : List (PciAddr × Option D)) (j k : Jbod D) (ok : Bool)
      → Indexed j
      → Spread ds j.device_hash (length j.devices)
      → jbod_init ds j ≡ some (ok, k)
      → Indexed k
  unfolding jbod_init
  jbod_init-Indexed [] j k ok ix sp h = subst (λ j. Indexed j) (ap (λ r. r.1) (some_injective h)) ix
  jbod_init-Indexed ((addr, none) ∷ ds) j k ok ix sp h =
      elim (Bool-cases (leb max_devices (length j.devices))) [
        | inl e ↦ absurd (none_ne_some (rw (jbod_init, e) at h))
        | inr e ↦
            subst (λ j. Indexed j) (ap (λ r. r.1) (some_injective (rw (jbod_init, e) at h))) ix
      ]
  jbod_init-Indexed ((addr, some bdev) ∷ ds) j k ok ix (free, sp) h =
      elim (Option-cases (add_device addr bdev j)) [
        | inl e ↦ absurd (none_ne_some (rw (jbod_init, e) at h))
        | inr (l, e) ↦
            jbod_init-Indexed ds l k ok (add_device-Indexed addr bdev j l ix free e)
              (opened-Spread addr bdev ds j l e sp) (rw (jbod_init, e) at h)
      ]

  abbrev pub running : Jbod D → Jbod D
  running j = record j { is_running = true }

module _ {D T : Type 0} (ops : BdevOps D T) where
  hand_to_device-target :
      (f : D → Bool × D) (i : ℕ) (j : Jbod D) (d : JbodDevice D)
      → get_elem? j.devices i ≡ some d
      → target (hand_to_device ops f i j) ≡ some i
  unfolding hand_to_device
  hand_to_device-target f i j d e = rw (hand_to_device, e)

  jbod_read-target :
      (a : PciAddr) (t : T) (i : ℕ) (d : JbodDevice D) (j : Jbod D)
      → j.is_running ≡ true
      → hash_addr a < max_hash
      → j.device_hash (hash_addr a) ≡ pos i
      → get_elem? j.devices i ≡ some d
      → target (jbod_read ops a t j) ≡ some i
  unfolding jbod_read hand_by_hash
  jbod_read-target a t i d j run small place e = simp (
    run,
    leb-false max_hash (hash_addr a) small,
    place,
    hand_to_device-target (ops.read_bdev t) i j d e,
  )

  jbod_remove-target :
      (a : PciAddr) (t : T) (i : ℕ) (d : JbodDevice D) (j : Jbod D)
      → j.is_running ≡ true
      → find_device a j.devices ≡ some i
      → get_elem? j.devices i ≡ some d
      → target (jbod_remove ops a t j) ≡ some i
  unfolding jbod_remove
  jbod_remove-target a t i d j run place e =
      rw (run, place) (hand_to_device-target (ops.remove_bdev t) i j d e)

  -- Where init meets a free place in the table for each device that it opens, and the devices then run, a
  -- read and a removal with the address of any of the devices are handed to that device.
  pub own_device :
      (ds : List (PciAddr × Option D)) (ok : Bool) (k : Jbod D) (i : ℕ) (d : JbodDevice D) (t : T)
      → Spread ds (λ h. negsuc 0) 0
      → jbod_init ds new_jbod ≡ some (ok, k)
      → get_elem? k.devices i ≡ some d
      → (target (jbod_read ops d.addr t (running k)) ≡ some i)
        × (target (jbod_remove ops d.addr t (running k)) ≡ some i)
  own_device ds ok k i d t sp h e =
      let ix = jbod_init-Indexed ds new_jbod k ok (λ i d e. absurd (none_ne_some e)) sp h in
      let (small, place) = ix i d e in
      (
        jbod_read-target d.addr t i d (running k) refl small place e,
        jbod_remove-target d.addr t i d (running k) refl (Indexed-find_device k i d ix e) e,
      )

  -- Where the device i is the first one with the address a, and another device is added whose address has
  -- the same hash, a read with the address a is handed to the new device, while a removal still goes to i.
  pub misled :
      (j k : Jbod D) (a addr : PciAddr) (bdev : D) (i : ℕ) (d : JbodDevice D) (t : T)
      → find_device a j.devices ≡ some i
      → get_elem? j.devices i ≡ some d
      → hash_addr a ≡ hash_addr addr
      → add_device addr bdev j ≡ some k
      → (target (jbod_read ops a t (running k)) ≡ some (length j.devices))
        × (target (jbod_remove ops a t (running k)) ≡ some i)
        × (i < length j.devices)
  misled j k a addr bdev i d t first e same h =
      let (small, after) = added addr bdev j k h in
      let l = running (record j {
        devices = j.devices ++ record { addr = addr; bdev = bdev; num = length j.devices } ∷ [];
        device_hash = write_hash j.device_hash (hash_addr addr) (pos (length j.devices));
      }) in
      let below = get_elem?_below j.devices i d e in
      let last = get_elem?-length j.devices _ in
      let place : l.device_hash (hash_addr a) ≡ pos (length j.devices) =
        ap l.device_hash same
        ∙ write_hash_self j.device_hash (hash_addr addr) (pos (length j.devices)) in
      (
        ap (λ k. target (jbod_read ops a t (running k))) after
            ∙ jbod_read-target a t (length j.devices) _ l refl (omega (arith, small, same)) place
                last,
        ap (λ k. target (jbod_remove ops a t (running k))) after
            ∙ jbod_remove-target a t i d l refl (find_device-append a j.devices _ i first)
                (get_elem?-append_left j.devices _ i below ∙ e),
        below,
      )
