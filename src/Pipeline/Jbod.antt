-- ===== src/Pipeline/Jbod.antt =====
-- lib/spdk/SpdkJBODBdev.h and .cpp: several devices as one. A read goes to the device that a table names
-- for the hash of the task's PCI address, a write to the next device in turn, a removal and a returned
-- address to the first device with the PCI address. What a single device does is SpdkBdev, an interface
-- here.
pub mod Routing
use daqdb.Base.{
  ℕ, zero, suc, ◌+◌, ◌*◌, ◌%◌, Bool, true, false, ◌&&◌, Option, none, some, List, [], ◌∷◌, ◌++◌,
  leb, ◌==◌, if◌then◌else◌, get_elem?, set, length,
}
use daqdb.Base.Int.{ℤ, pos, negsuc}

-- PciAddr of lib/pmem/RTreeEngine.h
pub record PciAddr : Type 0 where
  pub domain : ℕ
  pub bus : ℕ
  pub dev : ℕ
  pub func : ℕ

-- SpdkBdev: the operations on tasks, with what they return, and on returned addresses
pub record BdevOps (D T : Type 0) : Type 0 where
  pub read_bdev : T → D → Bool × D
  pub write_bdev : T → D → Bool × D
  pub remove_bdev : T → D → Bool × D
  pub put_bdev : T → D → D

pub record JbodDevice (D : Type 0) : Type 0 where
  pub addr : PciAddr
  pub bdev : D
  pub num : ℕ

-- The first numDevices entries of `devices`, and the other fields. A place of `deviceHash` is an int32_t,
-- -1 where no device is.
pub record Jbod (D : Type 0) : Type 0 where
  pub devices : List (JbodDevice D)
  pub device_hash : ℕ → ℤ
  pub curr_device : ℕ
  pub is_running : Bool

abbrev pub max_devices : ℕ
max_devices = 64

-- uint16_t of -1: the table has no place for the hash 65535.
abbrev pub max_hash : ℕ
max_hash = 65535

-- The bit fields of DeviceHash, the first the lowest
abbrev pub hash_addr : PciAddr → ℕ
hash_addr a = a.domain % 4 + 4 * (a.bus % 64) + 256 * (a.dev % 32) + 8192 * (a.func % 8)

-- The operator== of PciAddr
abbrev pub same_addr : PciAddr → PciAddr → Bool
same_addr a b = a.domain == b.domain && a.bus == b.bus && a.dev == b.dev && a.func == b.func

-- `false` without a device, what the device with this number returned, or memory behind an array
pub data Handed (D : Type 0) : Type 0 where
  refused : Handed D
  handed : ℕ → Bool → Jbod D → Handed D
  undefined : Handed D

-- The constructor
abbrev pub new_jbod : {D : Type 0} → Jbod D
new_jbod = record { devices = []; device_hash = λ h. negsuc 0; curr_device = 0; is_running = false }

abbrev pub write_hash : (ℕ → ℤ) → ℕ → ℤ → ℕ → ℤ
write_hash table h v k = if k == h then v else table k

-- A round of init for a device that is opened. `none` is a write behind an array.
unfoldable pub add_device : {D : Type 0} → PciAddr → D → Jbod D → Option (Jbod D)
add_device addr bdev j =
    if leb max_devices (length j.devices)
    then none
    else if leb max_hash (hash_addr addr)
    then none
    else some (record j {
      devices = j.devices ++ record { addr = addr; bdev = bdev; num = length j.devices } ∷ [];
      device_hash = write_hash j.device_hash (hash_addr addr) (pos (length j.devices));
    })

-- init over the devices of the configuration, each with what SpdkBdev::init made of it: `none` where it
-- returned false.
unfoldable pub jbod_init :
    {D : Type 0} → List (PciAddr × Option D) → Jbod D → Option (Bool × Jbod D)
jbod_init [] j = some (true, j)
jbod_init ((addr, none) ∷ ds) j =
    if leb max_devices (length j.devices) then none else some (false, j)
jbod_init ((addr, some bdev) ∷ ds) j = elim (add_device addr bdev j) [
  | none ↦ none
  | some k ↦ jbod_init ds k
]

-- The first device with the address: the loops of remove and putFreeLba
unfoldable pub find_device : {D : Type 0} → PciAddr → List (JbodDevice D) → Option ℕ
find_device a [] = none
find_device a (d ∷ ds) =
    let rest = find_device a ds in
    if same_addr a d.addr then some 0 else elim rest [ none ↦ none | some i ↦ some (suc i) ]

-- The end of write
abbrev advance : {D : Type 0} → Jbod D → Jbod D
advance j = record j { curr_device = (j.curr_device + 1) % length j.devices }

module _ {D T : Type 0} (ops : BdevOps D T) where
  -- A call of the device's operation
  unfoldable pub hand_to_device : (D → Bool × D) → ℕ → Jbod D → Handed D
  hand_to_device f i j = elim (get_elem? j.devices i) [
    | none ↦ undefined
    | some d ↦
        let r = f d.bdev in
        handed i (r.0) (record j { devices = set j.devices i (record d { bdev = r.1 }) })
  ]

  unfoldable pub hand_by_hash : T → ℤ → Jbod D → Handed D
  hand_by_hash t (pos i) j = hand_to_device (ops.read_bdev t) i j
  hand_by_hash t (negsuc i) j = refused

  unfoldable pub jbod_read : PciAddr → T → Jbod D → Handed D
  jbod_read a t j =
      if j.is_running
      then if leb max_hash (hash_addr a)
        then undefined
        else hand_by_hash t (j.device_hash (hash_addr a)) j
      else refused

  unfoldable pub jbod_write : T → Jbod D → Handed D
  jbod_write t j =
      if j.is_running
      then elim (hand_to_device (ops.write_bdev t) j.curr_device j) [
        | refused ↦ refused
        | handed i b k ↦ handed i b (advance k)
        | undefined ↦ undefined
      ]
      else refused

  unfoldable pub jbod_remove : PciAddr → T → Jbod D → Handed D
  jbod_remove a t j =
      if j.is_running
      then elim (find_device a j.devices) [
        | none ↦ refused
        | some i ↦ hand_to_device (ops.remove_bdev t) i j
      ]
      else refused

  pub jbod_put_free_lba : PciAddr → T → Jbod D → Jbod D
  jbod_put_free_lba a t j =
      if j.is_running
      then elim (find_device a j.devices) [
        | none ↦ j
        | some i ↦ elim (get_elem? j.devices i) [
          | none ↦ j
          | some d ↦ record j {
            devices = set j.devices i (record d { bdev = ops.put_bdev t d.bdev });
          }
        ]
      ]
      else j
