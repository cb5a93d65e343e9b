-- ===== src/Services/Devices/Creation/Runs.antt =====
-- What the checks of a creation have found, and the rows that a batch builds.
use mathlib.Core.Path.{subst}
use ghost_meter.Prelude.{
  ℕ, zero, suc, ◌+◌, ◌-◌, ◌≤◌, ◌<◌, ◌≡◌, refl, ap, String, ◌&&◌, Option, none, List, [], ◌∷◌, arith,
  length, ltb, leb, ◌==◌, ==_iff, nat_eq, string_eq, Bool-cases, inl, inr,
}
use ghost_meter.Errors.{Result, ok, err, validation, raise_if, raise_if-eq-ok, >>=-eq-ok}
use ghost_meter.Table.{bit, count}
use ghost_meter.Services.Devices.{
  DeviceInstance, Database, Settings, resolve_port, validate_slave_id_ceiling, has_id, holds,
  holds_other, check_slave_id_available,
}
use ghost_meter.Services.Templates.{get_template}
use ghost_meter.Services.Devices.Creation.{
  device_name, DeviceBatchCreate, new_device, all_available, build_devices, check_batch,
}

pub available :
    (devices : List DeviceInstance) (s p : ℕ) (exclude : Option ℕ) (u : Unit {0})
    → check_slave_id_available devices s p exclude ≡ ok u
    → count (holds_other s p exclude) devices ≡ 0
unfolding check_slave_id_available
available devices s p exclude u e =
    ground (arith, ==_iff (count (holds_other s p exclude) devices) 0)

pub available_none :
    (devices : List DeviceInstance) (s p : ℕ) (u : Unit {0})
    → check_slave_id_available devices s p none ≡ ok u
    → count (holds s p) devices ≡ 0
unfolding holds_other
available_none devices s p u e = available devices s p none u e

abbrev rows_of_result : Result (List DeviceInstance) → List DeviceInstance
rows_of_result (ok rows) = rows
rows_of_result (err _) = []

-- What is built for the slaves from `s` on and under the ids from `id` on, `n` of each.
pub record IsRun (port id s n : ℕ) (built : List DeviceInstance) : Type 0 where
  pub lengths : length built ≡ n
  pub slaves : (t p : ℕ) → count (holds t p) built ≡ bit (p == port && (leb s t && ltb t (s + n)))
  pub ids : (i : ℕ) → count (has_id i) built ≡ bit (leb id i && ltb i (id + n))

cons-IsRun :
    (template_id : ℕ) (name : String) (description : Option String) (port id s n : ℕ)
    (rest : List DeviceInstance)
    → IsRun port (id + 1) (s + 1) n rest
    → IsRun port id s (suc n) (new_device id template_id name s port description ∷ rest)
unfolding count holds has_id new_device
cons-IsRun template_id name description port id s n rest h = record {
  lengths = ap suc h.lengths;
  slaves = λ t p. ground (arith, h.slaves t p, ==_iff s t, ==_iff port p, ==_iff p port);
  ids = λ i. ground (arith, h.ids i, ==_iff id i);
}

-- The rows that a batch builds.
build_devices-IsRun :
    (str : ℕ → String) (len : String → ℕ) (request : DeviceBatchCreate) (name : String)
    (port id s n : ℕ) (built : List DeviceInstance)
    → build_devices str len request name port id s n ≡ ok built
    → IsRun port id s n built
unfolding build_devices count
build_devices-IsRun str len request name port id s zero built e =
    let nil : [] ≡ built = ap rows_of_result e in
    rw (← nil) (record { lengths = refl; slaves = λ t p. ground arith; ids = λ i. ground arith })
build_devices-IsRun str len request name port id s (suc n) built e =
    let label = device_name str request name s in
    let (_, _, e1) = >>=-eq-ok (raise_if (ltb 200 (len label)) validation) _ e in
    let (rest, e2, e3) =
      >>=-eq-ok (build_devices str len request name port (id + 1) (s + 1) n) _ e1 in
    let here : new_device id request.template_id label s port request.description ∷ rest ≡ built =
      ap rows_of_result e3 in
    subst (IsRun port id s (suc n)) here (
      cons-IsRun request.template_id label request.description port id s n rest
        (build_devices-IsRun str len request name port (id + 1) (s + 1) n rest e2))

all_available-free :
    (devices : List DeviceInstance) (port s n : ℕ) (u : Unit {0})
    → all_available devices port s n ≡ ok u
    → (t : ℕ) → s ≤ t
    → t < s + n
    → count (holds t port) devices ≡ 0
unfolding all_available
all_available-free devices port s zero u e t low high = absurd (omega arith)
all_available-free devices port s (suc n) u e t low high =
    let (v, first, rest) = >>=-eq-ok (check_slave_id_available devices s port none) _ e in
    elim (Bool-cases (t == s)) [
      | inl same ↦ rw ((==_iff t s).0 same) (available_none devices s port v first)
      | inr other ↦
          all_available-free devices port (s + 1) n u rest t (ground (arith, ==_iff t s))
            (omega arith)
    ]

abbrev pub size : DeviceBatchCreate → ℕ
size request = request.slave_id_end - request.slave_id_start + 1

module _ {R W : Type 0} where
  -- What the checks of a batch that pass have found and built.
  pub check_batch-IsRun :
      (str : ℕ → String) (len : String → ℕ) (settings : Settings) (db : Database R W)
      (request : DeviceBatchCreate) (built : List DeviceInstance)
      → check_batch str len settings db request ≡ ok built
      → (port : ℕ) × IsRun port db.next_id request.slave_id_start (size request) built
        × ((t : ℕ)
            → request.slave_id_start ≤ t
            → t < request.slave_id_start + size request
            → count (holds t port) db.devices ≡ 0)
        × (request.slave_id_start ≤ request.slave_id_end)
  unfolding check_batch
  check_batch-IsRun str len settings db request built e =
      let (u1, in_order, e1) =
        >>=-eq-ok (raise_if (ltb request.slave_id_end request.slave_id_start) validation) _ e in
      let (_, _, e2) = >>=-eq-ok (raise_if (ltb 50 (size request)) validation) _ e1 in
      let (template, _, e3) = >>=-eq-ok (get_template db.templates request.template_id) _ e2 in
      let (_, _, e4) =
        >>=-eq-ok (validate_slave_id_ceiling template.protocol request.slave_id_end) _ e3 in
      let (port, _, e5) = >>=-eq-ok (resolve_port settings template.protocol) _ e4 in
      let (u, free, e6) =
        >>=-eq-ok (all_available db.devices port request.slave_id_start (size request)) _ e5 in
      (
        port,
        build_devices-IsRun str len request template.name port db.next_id request.slave_id_start _
            built e6,
        all_available-free db.devices port request.slave_id_start _ u free,
        ground (arith, raise_if-eq-ok _ _ u1 in_order),
      )
