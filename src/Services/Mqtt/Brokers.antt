-- ===== src/Services/Mqtt/Brokers.antt =====
-- What is kept of brokers and configurations, and that the calls on brokers keep it.
use mathlib.Core.Path.{subst}
use ghost_meter.Prelude.{
  ℕ, ◌≤◌, ◌<◌, ◌≡◌, refl, ap, ◌∙◌, String, true, false, not, ◌&&◌, Option, none, some, List, [],
  ◌∷◌, arith, ltb, ◌==◌, ==_iff, nat_eq, string_eq, Bool-cases, inl, inr,
}
use ghost_meter.Errors.{ok, conflict, raise_if, raise_if-eq-ok, >>=-eq-ok}
use ghost_meter.Table.{
  find, write, count, count-append, count-write, count-write_keep, count-remove, count_others,
  find-write, find-write_self, find-remove, find-append, find-hit,
}
use ghost_meter.Services.Mqtt.{
  MqttBrokerWrite, MqttBrokerSettings, Database, has_id, named, broker_found, get_broker,
  named_other, ensure_unique_name, create_broker, change, update_broker, of_broker,
  count_configs_for_broker, delete_broker, of_pair, committed,
}

pub record IsSettled (db : Database) : Type 0 where
  pub one_name : (name : String) → count (named name) db.brokers ≤ 1
  pub one_id : (i : ℕ) → count (has_id i) db.brokers ≤ 1
  pub fresh : (i : ℕ) → db.next_id ≤ i → count (has_id i) db.brokers ≡ 0
  pub one_pair : (d b : ℕ) → count (of_pair d b) db.configs ≤ 1
  pub present :
      (b : ℕ)
      → 0 < count (of_broker b) db.configs
      → (broker : MqttBrokerSettings) × (find (has_id b) db.brokers ≡ some broker)

broker_found-eq-ok :
    (o : Option MqttBrokerSettings) (b : MqttBrokerSettings) → broker_found o ≡ ok b → o ≡ some b
unfolding broker_found
broker_found-eq-ok none b e = cc
broker_found-eq-ok (some c) b e = cc

pub get_broker-eq-ok :
    (rows : List MqttBrokerSettings) (i : ℕ) (b : MqttBrokerSettings)
    → get_broker rows i ≡ ok b
    → find (has_id i) rows ≡ some b
unfolding get_broker
get_broker-eq-ok rows i b e = broker_found-eq-ok (find (has_id i) rows) b e

has_id-other :
    (i j : ℕ) → ¬ (i ≡ j) → (b : MqttBrokerSettings) → has_id j b ≡ true → has_id i b ≡ false
unfolding has_id
has_id-other i j apart b e = ground (arith, ==_iff b.id j, ==_iff b.id i)

name_free :
    (rows : List MqttBrokerSettings) (name : String) (exclude : Option ℕ) (u : Unit {0})
    → ensure_unique_name rows name exclude ≡ ok u
    → count (named_other name exclude) rows ≡ 0
unfolding ensure_unique_name
name_free rows name exclude u e = let free = raise_if-eq-ok _ _ u e in ground (arith, free)

pub create_broker-IsSettled :
    (db : Database) (request : MqttBrokerWrite) (after : Database)
    → create_broker db request ≡ ok after
    → IsSettled db
    → IsSettled after
unfolding create_broker count named has_id named_other
create_broker-IsSettled db request after e h =
    let b : MqttBrokerSettings = record { id = db.next_id; settings = request } in
    let (u, unique, e1) = >>=-eq-ok (ensure_unique_name db.brokers request.name none) _ e in
    let absent : count (named request.name) db.brokers ≡ 0 =
      name_free db.brokers request.name none u unique in
    subst IsSettled (ap (committed db) e1) (record {
      one_name = λ name. elim (Bool-cases (request.name == name)) [
        | inl same ↦
            let none_yet : count (named name) db.brokers ≡ 0 =
              rw (← (==_iff request.name name).0 same) absent in
            ground (arith, count-append (named name) db.brokers (b ∷ []), none_yet)
        | inr other ↦
            ground (arith, count-append (named name) db.brokers (b ∷ []), h.one_name name, other)
      ];
      one_id = λ i. ground (
        arith,
        count-append (has_id i) db.brokers (b ∷ []),
        h.one_id i,
        h.fresh i,
        ==_iff db.next_id i,
      );
      fresh = λ i.
          ground
            (arith, count-append (has_id i) db.brokers (b ∷ []), h.fresh i, ==_iff db.next_id i);
      one_pair = h.one_pair;
      present = λ i used.
          let (found, e') = h.present i used in
          (found, find-append (has_id i) db.brokers (b ∷ []) found e');
    })

change-has_id :
    (request : MqttBrokerWrite) (i : ℕ) (b : MqttBrokerSettings)
    → has_id i (change request b) ≡ has_id i b
unfolding change has_id
change-has_id request i b = refl

-- The name of the broker that is written was free, but for its own row.
change-named :
    (db : Database) (j : ℕ) (request : MqttBrokerWrite) (b : MqttBrokerSettings) (name : String)
    → find (has_id j) db.brokers ≡ some b
    → count (named_other request.name (some j)) db.brokers ≡ 0
    → IsSettled db
    → count (named name) (write (has_id j) (change request) db.brokers) ≤ 1
unfolding named change named_other
change-named db j request b name found free h =
    let written = count-write (named name) (has_id j) (change request) db.brokers b found in
    elim (Bool-cases (request.name == name)) [
      | inl same ↦
          let others = count_others (named name) (has_id j) db.brokers b found (h.one_id j) in
          let free' : count (λ s. named name s && not (has_id j s)) db.brokers ≡ 0 =
            rw (← (==_iff request.name name).0 same) free in
          ground (arith, written, others, free', same)
      | inr other ↦ ground (arith, written, h.one_name name, other)
    ]

pub update_broker-IsSettled :
    (db : Database) (j : ℕ) (request : MqttBrokerWrite) (after : Database)
    → update_broker db j request ≡ ok after
    → IsSettled db
    → IsSettled after
unfolding update_broker
update_broker-IsSettled db j request after e h =
    let (b, got, e1) = >>=-eq-ok (get_broker db.brokers j) _ e in
    let (u, unique, e2) = >>=-eq-ok (ensure_unique_name db.brokers request.name (some j)) _ e1 in
    let found = get_broker-eq-ok db.brokers j b got in
    let free = name_free db.brokers request.name (some j) u unique in
    let same = λ (i : ℕ).
      count-write_keep (has_id i) (has_id j) (change request) db.brokers
        (change-has_id request i) in
    subst IsSettled (ap (committed db) e2) (record {
      one_name = λ name. change-named db j request b name found free h;
      one_id = λ i. omega (arith, same i, h.one_id i);
      fresh = λ i above. omega (arith, same i, h.fresh i above);
      one_pair = h.one_pair;
      present = λ i used.
          let (s, e') = h.present i used in
          elim (Bool-cases (i == j)) [
            | inl same' ↦ (
              change request s,
              rw (← (==_iff i j).0 same') (
                  find-write_self (has_id i) (change request) db.brokers s e'
                    (change-has_id request i s ∙ find-hit (has_id i) db.brokers s e')),
            )
            | inr other ↦ (
              s,
              find-write (has_id i) (has_id j) (change request) db.brokers (change-has_id request i)
                    (has_id-other i j (λ here. ground (arith, ==_iff i j)))
                  ∙ e',
            )
          ];
    })

pub delete_broker-IsSettled :
    (db : Database) (j : ℕ) (after : Database)
    → delete_broker db j ≡ ok after
    → IsSettled db
    → IsSettled after
unfolding delete_broker count_configs_for_broker
delete_broker-IsSettled db j after e h =
    let (b, _, e1) = >>=-eq-ok (get_broker db.brokers j) _ e in
    let (u, unused, e2) =
      >>=-eq-ok (raise_if (ltb 0 (count (of_broker j) db.configs)) (conflict "BROKER_IN_USE")) _
        e1 in
    let none_left = raise_if-eq-ok _ _ u unused in
    subst IsSettled (ap (committed db) e2) (record {
      one_name =
          λ name. omega (arith, count-remove (named name) (has_id j) db.brokers, h.one_name name);
      one_id = λ i. omega (arith, count-remove (has_id i) (has_id j) db.brokers, h.one_id i);
      fresh =
          λ i above. omega (arith, count-remove (has_id i) (has_id j) db.brokers, h.fresh i above);
      one_pair = h.one_pair;
      present = λ i used.
          let (t, found) = h.present i used in
          let apart : ¬ (i ≡ j) = λ same. absurd (
            let used' : 0 < count (of_broker j) db.configs = rw (← same) used in
            ground (arith, used', none_left)) in
          (t, find-remove (has_id i) (has_id j) db.brokers (has_id-other i j apart) ∙ found);
    })
