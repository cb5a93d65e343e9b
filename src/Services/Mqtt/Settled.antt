-- ===== src/Services/Mqtt/Settled.antt =====
-- Brokers have names of their own, a device has one configuration for each broker, and the broker
-- of a configuration is there.
use mathlib.Core.Path.{subst}
use ghost_meter.Prelude.{
  ℕ, ◌≤◌, ◌<◌, ◌≡◌, refl, ap, false, Option, none, some, List, [], ◌∷◌, ◌++◌, arith, ◌==◌, ==_iff,
  nat_eq, string_eq, Bool-cases, inl, inr,
}
use ghost_meter.Errors.{Result, ok, err, >>=-eq-ok}
use ghost_meter.Table.{
  find, write, remove, count, count-append, count-write_keep, count-remove, count_missing,
  count_missing,
}
use ghost_meter.Services.Mqtt.{
  MqttBrokerSettings, MqttPublishConfigWrite, MqttPublishConfig, Database, has_id, get_broker,
  of_broker, of_pair, get_publish_config, set_settings, upsert, upsert_publish_config,
  delete_publish_config, set_enabled, set_publish_enabled, Call, create, update, delete, publish,
  unpublish, enable, perform, committed, perform_all,
}
use ghost_meter.Services.Mqtt.Brokers.{
  IsSettled, get_broker-eq-ok, create_broker-IsSettled, update_broker-IsSettled,
  delete_broker-IsSettled,
}

-- The configurations after a call on one of them, whose pair has a broker.
configs-IsSettled :
    (db : Database) (configs : List MqttPublishConfig)
    → ((d b : ℕ) → count (of_pair d b) configs ≤ 1)
    → ((b : ℕ)
        → 0 < count (of_broker b) configs
        → (broker : MqttBrokerSettings) × (find (has_id b) db.brokers ≡ some broker))
    → IsSettled db
    → IsSettled (record db { configs = configs })
configs-IsSettled db configs one_pair present h = record {
  one_name = h.one_name;
  one_id = h.one_id;
  fresh = h.fresh;
  one_pair = one_pair;
  present = present;
}

upsert-IsSettled :
    (db : Database) (d b : ℕ) (request : MqttPublishConfigWrite) (broker : MqttBrokerSettings)
    (o : Option MqttPublishConfig)
    → find (has_id b) db.brokers ≡ some broker
    → find (of_pair d b) db.configs ≡ o
    → IsSettled db
    → IsSettled (record db { configs = upsert db.configs d b request o })
unfolding upsert set_settings of_pair of_broker count
upsert-IsSettled db d b request broker none found missing h =
    let config : MqttPublishConfig = record {
      device_id = d;
      broker_id = b;
      settings = request;
      enabled = false;
    } in
    let absent = count_missing (of_pair d b) db.configs missing in
    configs-IsSettled db (db.configs ++ config ∷ [])
      (λ e c. elim (Bool-cases (of_pair e c config)) [
        | inl same ↦
            let d_same : d ≡ e = ground (arith, ==_iff d e) in
            let b_same : b ≡ c = ground (arith, ==_iff b c) in
            let none_yet : count (of_pair e c) db.configs ≡ 0 = rw (← d_same, ← b_same) absent in
            ground (arith, count-append (of_pair e c) db.configs (config ∷ []), none_yet)
        | inr other ↦
            ground
              (arith, count-append (of_pair e c) db.configs (config ∷ []), h.one_pair e c, other)
      ])
      (λ c used. elim (Bool-cases (b == c)) [
        | inl same ↦ (broker, rw (← (==_iff b c).0 same) found)
        | inr other ↦
            h.present c
              (ground (arith, count-append (of_broker c) db.configs (config ∷ []), other, used))
      ])
      h
upsert-IsSettled db d b request broker (some config) found there h =
    configs-IsSettled db (write (of_pair d b) (set_settings request) db.configs)
      (λ e c. omega (
        arith,
        h.one_pair e c,
        count-write_keep (of_pair e c) (of_pair d b) (set_settings request) db.configs (λ _. refl),
      ))
      (λ c used. h.present c (
        omega (
          arith,
          used,
          count-write_keep (of_broker c) (of_pair d b) (set_settings request) db.configs
              (λ _. refl),
        )))
      h

perform-IsSettled :
    (db : Database) (call : Call) (after : Database)
    → perform db call ≡ ok after
    → IsSettled db
    → IsSettled after
unfolding perform upsert_publish_config get_publish_config delete_publish_config set_publish_enabled
    set_enabled of_pair of_broker
perform-IsSettled db (create request) after e h = create_broker-IsSettled db request after e h
perform-IsSettled db (update j request) after e h = update_broker-IsSettled db j request after e h
perform-IsSettled db (delete j) after e h = delete_broker-IsSettled db j after e h
perform-IsSettled db (publish d b request) after e h =
    let (broker, got, e1) = >>=-eq-ok (get_broker db.brokers b) _ e in
    subst IsSettled (ap (committed db) e1) (
      upsert-IsSettled db d b request broker (find (of_pair d b) db.configs)
        (get_broker-eq-ok db.brokers b broker got) refl h)
perform-IsSettled db (unpublish d b) after e h = subst IsSettled (ap (committed db) e) (
    configs-IsSettled db (remove (of_pair d b) db.configs)
      (λ i c. omega (arith, h.one_pair i c, count-remove (of_pair i c) (of_pair d b) db.configs))
      (λ c used.
        h.present c (omega (arith, used, count-remove (of_broker c) (of_pair d b) db.configs)))
      h)
perform-IsSettled db (enable d b enabled) after e h = subst IsSettled (ap (committed db) e) (
    configs-IsSettled db (write (of_pair d b) (set_enabled enabled) db.configs)
      (λ i c. omega (
        arith,
        h.one_pair i c,
        count-write_keep (of_pair i c) (of_pair d b) (set_enabled enabled) db.configs (λ _. refl),
      ))
      (λ c used. h.present c (
        omega (
          arith,
          used,
          count-write_keep (of_broker c) (of_pair d b) (set_enabled enabled) db.configs (λ _. refl),
        )))
      h)

committed-IsSettled :
    (db : Database) (r : Result Database)
    → ((after : Database) → r ≡ ok after → IsSettled after)
    → IsSettled db
    → IsSettled (committed db r)
committed-IsSettled db (ok after) done h = done after refl
committed-IsSettled db (err e) done h = h

-- Where no two brokers share a name or an id, ids are below the next fresh one, a device has one
-- configuration at most for a broker, and the broker of each configuration is there, that is so
-- again after any calls.
pub perform_all-IsSettled :
    (db : Database) (calls : List Call) → IsSettled db → IsSettled (perform_all db calls)
unfolding perform_all
perform_all-IsSettled db [] h = h
perform_all-IsSettled db (call ∷ calls) h =
    perform_all-IsSettled (committed db (perform db call)) calls
      (committed-IsSettled db (perform db call) (λ after e. perform-IsSettled db call after e h) h)
