-- ===== src/Status/Tests.antt =====
-- Inputs for types.rs.
use azad_server_box.Prelude.{ℕ, map, ◌≡◌, refl, none, some, [], ◌∷◌, Text, text_eq, codes}
use azad_server_box.Prelude.Map.{lookup}
use azad_server_box.Prelude.Strings.{strip_prefix, starts_with}
use azad_server_box.Status.{
  DiskInfo, disk, Disks, no_disks, more_disks, is_kernel_mount, disk_should_calc, count, visit,
  disk_usage, first_of, first, charging, parse_battery,
}
use azad_server_box.Status.Usage.{reached, reached_all}

abbrev device : Text → Text → ℕ → ℕ → DiskInfo
device path mount used size = record {
  path = path;
  fs_type = none;
  mount = mount;
  used_percent = 0;
  used = used;
  size = size;
  avail = 0;
  name = none;
  kname = none;
  uuid = none;
}

-- A disk with a partition, a second mount of it, and kernel memory.
abbrev disks : Disks
disks =
    more_disks
      (disk (device (codes "/dev/sda") [] 0 0)
        (more_disks (disk (device (codes "/dev/sda1") (codes "/") 30 100) no_disks) no_disks))
      (more_disks (disk (device (codes "/dev/sda1") (codes "/home") 30 100) no_disks) (
        more_disks (disk (device (codes "tmpfs") (codes "/run") 1 10) no_disks) (
          more_disks (disk (device (codes "devtmpfs") (codes "/dev/shm") 0 10) no_disks) no_disks)))

counted_once : disk_usage disks ≡ (30, 100)
unfolding disk_usage visit count disk_should_calc is_kernel_mount strip_prefix starts_with
counted_once = refl

-- The second mount of the partition adds nothing.
reached_twice : map (λ i. i.size) (reached_all disks) ≡ 0 ∷ 100 ∷ 100 ∷ []
unfolding reached reached_all disk_should_calc is_kernel_mount strip_prefix starts_with
reached_twice = refl

first_cpu_sensor : first {F = ℕ} ((codes "acpitz", 40) ∷ (codes "coretemp", 55) ∷ []) ≡ some 55
unfolding first first_of lookup
first_cpu_sensor = refl

charging_read : parse_battery (some (codes "Charging")) ≡ charging
unfolding parse_battery
charging_read = refl
