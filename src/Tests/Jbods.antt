-- ===== src/Tests/Jbods.antt =====
-- The devices of lib/spdk/SpdkJBODBdev.cpp, where a device is the number of the tasks it took.
use daqdb.Base.{ℕ, ◌+◌, ◌<◌, ◌≡◌, refl, true, false, Option, some, List, [], ◌∷◌}
use daqdb.Base.Int.{pos, negsuc}
use daqdb.Pipeline.Jbod.{
  PciAddr, BdevOps, JbodDevice, Jbod, write_hash, new_jbod, add_device, jbod_init, find_device,
  jbod_read, jbod_remove,
}
use daqdb.Pipeline.Jbod.Routing.{target, running, own_device, misled}

abbrev counting_ops : BdevOps ℕ ℕ
counting_ops = record {
  read_bdev = λ t d. (true, d + 1);
  write_bdev = λ t d. (true, d + 1);
  remove_bdev = λ t d. (true, d + 1);
  put_bdev = λ t d. d;
}

abbrev on_bus : ℕ → PciAddr
on_bus n = record { domain = 0; bus = n; dev = 0; func = 0 }

abbrev slot_of : ℕ → ℕ → JbodDevice ℕ
slot_of bus n = record { addr = on_bus bus; bdev = 0; num = n }

abbrev one_device : Jbod ℕ
one_device = record {
  devices = slot_of 1 0 ∷ [];
  device_hash = write_hash (λ h. negsuc 0) 4 (pos 0);
  curr_device = 0;
  is_running = false;
}

-- A jbod with a second device on this bus, which has this hash
abbrev with_device : ℕ → ℕ → Jbod ℕ
with_device bus h = record one_device {
  devices = slot_of 1 0 ∷ slot_of bus 1 ∷ [];
  device_hash = write_hash one_device.device_hash h (pos 1);
}

abbrev conf : List (PciAddr × Option ℕ)
conf = (on_bus 1, some 0) ∷ (on_bus 2, some 0) ∷ []

jbod_init-conf : jbod_init conf new_jbod ≡ some (true, with_device 2 8)
unfolding jbod_init add_device
jbod_init-conf = refl

own_device_example :
    (target (jbod_read counting_ops (on_bus 2) 5 (running (with_device 2 8))) ≡ some 1)
    × (target (jbod_remove counting_ops (on_bus 2) 5 (running (with_device 2 8))) ≡ some 1)
own_device_example =
    own_device counting_ops conf true (with_device 2 8) 1 (slot_of 2 1) 5 (refl, (refl, tt))
      jbod_init-conf refl

found : find_device (on_bus 1) (slot_of 1 0 ∷ []) ≡ some 0
unfolding find_device
found = refl

added_device : add_device (on_bus 65) 0 one_device ≡ some (with_device 65 4)
unfolding add_device
added_device = refl

misled_example :
    (target (jbod_read counting_ops (on_bus 1) 5 (running (with_device 65 4))) ≡ some 1)
    × (target (jbod_remove counting_ops (on_bus 1) 5 (running (with_device 65 4))) ≡ some 0)
    × (0 < 1)
misled_example =
    misled counting_ops one_device (with_device 65 4) (on_bus 1) (on_bus 65) 0 0 (slot_of 1 0) 5
      found refl refl added_device
