-- ===== src/Status.antt =====
-- crates/sbm_parser/src/types.rs: the values of a status that the program computes on. Sums of sizes are below the limit of
-- their type.
mod Tests
pub mod Usage
use azad_server_box.Prelude.{
  ℕ, ◌+◌, Bool, true, false, ◌||◌, ◌&&◌, not, Option, none, some, List, [], ◌∷◌, ◌++◌,
  if◌then◌else◌, nat_beq, any, Text, text_eq, codes, ◌==◌,
}
use azad_server_box.Prelude.Map.{Map, lookup}
use azad_server_box.Prelude.Strings.{strip_prefix, starts_with}

pub record CpuCore : Type 0 where
  pub id : Text
  pub user : ℕ
  pub sys : ℕ
  pub nice : ℕ
  pub idle : ℕ
  pub iowait : ℕ
  pub irq : ℕ
  pub softirq : ℕ

abbrev pub total : CpuCore → ℕ
total c = c.user + c.sys + c.nice + c.idle + c.iowait + c.irq + c.softirq

-- The fields of `Disk` but its children.
pub record DiskInfo : Type 0 where
  pub path : Text
  pub fs_type : Option Text
  pub mount : Text
  pub used_percent : ℕ
  pub used : ℕ
  pub size : ℕ
  pub avail : ℕ
  pub name : Option Text
  pub kname : Option Text
  pub uuid : Option Text

mutual
  pub data Disk : Type 0 where
    disk : DiskInfo → Disks → Disk

  pub data Disks : Type 0 where
    no_disks : Disks
    more_disks : Disk → Disks → Disks

unfoldable pub is_kernel_mount : Text → Bool
is_kernel_mount mount =
    any
      (λ p.
        mount == p
        || elim (strip_prefix p mount) [ none ↦ false | some rest ↦ starts_with (codes "/") rest ])
      (codes "/dev" ∷ codes "/proc" ∷ codes "/sys" ∷ [])

unfoldable pub disk_should_calc : Text → Text → Bool
disk_should_calc fs mount =
    if is_kernel_mount mount
    then false
    else if starts_with (codes "/dev") fs
        || starts_with (codes "//") fs
        || starts_with (codes "/mnt") mount
    then true
    else not (
        starts_with (codes "shm") fs
        || starts_with (codes "overlay") fs
        || starts_with (codes "tmpfs") fs
        || starts_with (codes "devtmpfs") fs)

-- The variables of `disk_usage`.
pub record Tally : Type 0 where
  pub seen : List Text
  pub used : ℕ
  pub size : ℕ

abbrev pub kname_of : Option Text → Text
kname_of none = codes "unknown"
kname_of (some kname) = kname

abbrev pub unique : DiskInfo → Text
unique i = i.path ++ b':' ∷ kname_of i.kname

abbrev pub mem : Text → List Text → Bool
mem u seen = any (λ other. other == u) seen

unfoldable pub count : DiskInfo → Tally → Tally
count i t =
    if mem (unique i) t.seen
    then t
    else record { seen = unique i ∷ t.seen; used = t.used + i.used; size = t.size + i.size }

-- A node with data of its own.
abbrev pub is_filled : DiskInfo → Bool
is_filled i = not (nat_beq i.used 0) || not (nat_beq i.size 0)

unfoldable mutual
  unfolding count

  pub visit : Disk → Tally → Tally
  visit (disk i children) t =
      let below = visit_all children (count i t) in
      if disk_should_calc i.path i.mount then (if is_filled i then count i t else below) else t

  pub visit_all : Disks → Tally → Tally
  visit_all no_disks t = t
  visit_all (more_disks d ds) t = visit_all ds (visit d t)

abbrev pub nothing_seen : Tally
nothing_seen = record { seen = []; used = 0; size = 0 }

unfoldable pub disk_usage : Disks → ℕ × ℕ
disk_usage ds = let t = visit_all ds nothing_seen in (t.used, t.size)

pub data BatteryStatus : Type 0 where
  charging discharging full unknown : BatteryStatus

unfoldable pub parse_battery : Option Text → BatteryStatus
parse_battery none = unknown
parse_battery (some s) =
    if s == codes "Charging"
    then charging
    else if s == codes "Discharging"
    then discharging
    else if s == codes "Full"
    then full
    else unknown

abbrev pub cpu_temp_keys : List Text
cpu_temp_keys =
    codes "x86_pkg_temp"
    ∷ codes "coretemp"
    ∷ codes "zenpower"
    ∷ codes "cpu_thermal"
    ∷ codes "soc"
    ∷ []

-- The first of the keys that the table has, else its first entry; the entries are in the order of the keys.
unfoldable pub first_of {ℓ} : {F : Type ℓ} → List Text → Map Text F → Option F
first_of [] [] = none
first_of [] ((k, v) ∷ m) = some v
first_of (key ∷ keys) m =
    let rest = first_of keys m in elim (lookup key m) [ some v ↦ some v | none ↦ rest ]

unfoldable pub first {ℓ} : {F : Type ℓ} → Map Text F → Option F
first m = first_of cpu_temp_keys m
