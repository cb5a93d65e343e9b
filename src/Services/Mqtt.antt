-- ===== src/Services/Mqtt.antt =====
-- backend/app/services/mqtt_service.py: brokers, and what each device publishes to each broker.
-- The adapter's calls are the record Publisher.
pub mod Brokers
pub mod Settled
use ghost_meter.Prelude.{
  ℕ, ◌+◌, String, Bool, true, false, not, ◌&&◌, Option, none, some, List, [], ◌∷◌, ◌++◌, ltb, ◌==◌,
  nat_eq, string_eq, if◌then◌else◌,
}
use ghost_meter.Dict.{Dict, get}
use ghost_meter.Errors.{Error, Result, ok, err, not_found, conflict, raise_if, ◌>>=◌, ◌>>◌}
use ghost_meter.Table.{find, write, remove, count, filter}
use ghost_meter.Services.Devices.{DeviceInstance}

pub record MqttBrokerWrite : Type 0 where
  pub name : String
  pub host : String
  pub port : ℕ
  pub username : String
  pub password : String
  pub client_id : String
  pub use_tls : Bool

-- A row of mqtt_broker_settings
pub record MqttBrokerSettings : Type 0 where
  pub id : ℕ
  pub settings : MqttBrokerWrite

pub record MqttPublishConfigWrite : Type 0 where
  pub topic_template : String
  pub payload_mode : String
  pub publish_interval_seconds : ℕ
  pub qos : ℕ
  pub retain : Bool

-- A row of mqtt_publish_configs
pub record MqttPublishConfig : Type 0 where
  pub device_id : ℕ
  pub broker_id : ℕ
  pub settings : MqttPublishConfigWrite
  pub enabled : Bool

pub record Database : Type 0 where
  pub brokers : List MqttBrokerSettings
  pub configs : List MqttPublishConfig
  pub next_id : ℕ

abbrev masked_password : String
masked_password = "****"

unfoldable pub has_id : ℕ → MqttBrokerSettings → Bool
has_id broker_id broker = broker.id == broker_id

unfoldable pub named : String → MqttBrokerSettings → Bool
named name broker = broker.settings.name == name

broker_found : Option MqttBrokerSettings → Result MqttBrokerSettings
broker_found none = err (not_found "NOT_FOUND")
broker_found (some broker) = ok broker

-- `get_broker`, and the check for `None` that its callers make
pub get_broker : List MqttBrokerSettings → ℕ → Result MqttBrokerSettings
unfolding has_id broker_found
get_broker brokers broker_id = broker_found (find (has_id broker_id) brokers)

-- `exclude_id`
unfoldable pub named_other : String → Option ℕ → MqttBrokerSettings → Bool
unfolding named has_id
named_other name none broker = named name broker
named_other name (some broker_id) broker = named name broker && not (has_id broker_id broker)

-- `_ensure_unique_name`
unfoldable pub ensure_unique_name : List MqttBrokerSettings → String → Option ℕ → Result (Unit {0})
unfolding named_other
ensure_unique_name brokers name exclude_id =
    raise_if (ltb 0 (count (named_other name exclude_id) brokers)) (conflict "DUPLICATE_NAME")

unfoldable pub create_broker : Database → MqttBrokerWrite → Result Database
create_broker db request = do
  ensure_unique_name db.brokers request.name none
  ok (record db {
    brokers = db.brokers ++ record { id = db.next_id; settings = request } ∷ [];
    next_id = db.next_id + 1;
  })

-- A masked password keeps the stored one.
change : MqttBrokerWrite → MqttBrokerSettings → MqttBrokerSettings
change request broker = record broker {
  settings = record request {
    password =
        if request.password == masked_password then broker.settings.password else request.password;
  };
}

unfoldable pub update_broker : Database → ℕ → MqttBrokerWrite → Result Database
unfolding get_broker change
update_broker db broker_id request = do
  broker ← get_broker db.brokers broker_id
  ensure_unique_name db.brokers request.name (some broker_id)
  ok (record db { brokers = write (has_id broker_id) (change request) db.brokers })

unfoldable pub of_broker : ℕ → MqttPublishConfig → Bool
of_broker broker_id config = config.broker_id == broker_id

unfoldable pub count_configs_for_broker : List MqttPublishConfig → ℕ → ℕ
unfolding of_broker
count_configs_for_broker configs broker_id = count (of_broker broker_id) configs

unfoldable pub delete_broker : Database → ℕ → Result Database
unfolding get_broker
delete_broker db broker_id = do
  broker ← get_broker db.brokers broker_id
  raise_if (ltb 0 (count_configs_for_broker db.configs broker_id)) (conflict "BROKER_IN_USE")
  ok (record db { brokers = remove (has_id broker_id) db.brokers })

-- The key of a configuration, which uq_mqtt_publish_device_broker makes unique.
unfoldable pub of_pair : ℕ → ℕ → MqttPublishConfig → Bool
of_pair device_id broker_id config = config.device_id == device_id && config.broker_id == broker_id

-- `get_publish_config`
unfoldable pub get_publish_config : List MqttPublishConfig → ℕ → ℕ → Option MqttPublishConfig
unfolding of_pair
get_publish_config configs device_id broker_id = find (of_pair device_id broker_id) configs

set_settings : MqttPublishConfigWrite → MqttPublishConfig → MqttPublishConfig
set_settings request config = record config { settings = request }

upsert :
    List MqttPublishConfig
    → ℕ
    → ℕ
    → MqttPublishConfigWrite
    → Option MqttPublishConfig
    → List MqttPublishConfig
unfolding set_settings of_pair
upsert configs device_id broker_id request none =
    configs
    ++ record { device_id = device_id; broker_id = broker_id; settings = request; enabled = false }
      ∷ []
upsert configs device_id broker_id request (some config) =
    write (of_pair device_id broker_id) (set_settings request) configs

unfoldable pub upsert_publish_config : Database → ℕ → ℕ → MqttPublishConfigWrite → Result Database
unfolding get_broker upsert
upsert_publish_config db device_id broker_id request = do
  broker ← get_broker db.brokers broker_id
  ok (record db {
    configs =
        upsert db.configs device_id broker_id request
          (get_publish_config db.configs device_id broker_id);
  })

-- Whether there was one is the result in the source; a missing row is not removed.
unfoldable pub delete_publish_config : Database → ℕ → ℕ → Database
unfolding of_pair
delete_publish_config db device_id broker_id = record db {
  configs = remove (of_pair device_id broker_id) db.configs;
}

set_enabled : Bool → MqttPublishConfig → MqttPublishConfig
set_enabled enabled config = record config { enabled = enabled }

unfoldable pub set_publish_enabled : Database → ℕ → ℕ → Bool → Database
unfolding of_pair set_enabled
set_publish_enabled db device_id broker_id enabled = record db {
  configs = write (of_pair device_id broker_id) (set_enabled enabled) db.configs;
}

-- `set_device_meta` and `start_publishing` of the adapter
pub record Publisher (W : Type 0) : Type 0 where
  pub set_device_meta : W → ℕ → String → ℕ → String → W
  pub start_publishing : W → ℕ → ℕ → MqttPublishConfigWrite → W × Result (Unit {0})

wanted : Option ℕ → MqttPublishConfig → Bool
wanted none config = config.enabled
wanted (some broker_id) config = config.enabled && config.broker_id == broker_id

running : ℕ → DeviceInstance → Bool
running device_id device = device.id == device_id && device.status == "running"

template_name_of : Dict ℕ String → Option DeviceInstance → Option String
template_name_of names none = none
template_name_of names (some device) = get names device.template_id

module _ {W : Type 0} ⦃publisher : Publisher W⦄ where
  started : ℕ → W × Result (Unit {0}) → W × ℕ
  started n (w, ok _) = (w, n + 1)
  started n (w, err e) = (w, n)

  resume : W × ℕ → MqttPublishConfig → Option DeviceInstance → Option String → W × ℕ
  unfolding started
  resume (w, n) config none template_name = (w, n)
  resume (w, n) config (some device) none = (w, n)
  resume (w, n) config (some device) (some template_name) = started n (
      publisher.start_publishing
        (publisher.set_device_meta w config.device_id device.name device.slave_id template_name)
        config.device_id config.broker_id config.settings)

  -- The rows of the join: enabled configurations of running devices, whose templates have names.
  resume_each : List DeviceInstance → Dict ℕ String → W × ℕ → List MqttPublishConfig → W × ℕ
  unfolding resume running template_name_of
  resume_each devices names state [] = state
  resume_each devices names state (config ∷ configs) =
      let device = find (running config.device_id) devices in
      resume_each devices names (resume state config device (template_name_of names device)) configs

  unfoldable pub resume_enabled_publishing :
      List DeviceInstance → Dict ℕ String → W → List MqttPublishConfig → Option ℕ → W × ℕ
  unfolding resume_each wanted
  resume_enabled_publishing devices names w configs broker_id =
      resume_each devices names (w, 0) (filter (wanted broker_id) configs)

pub data Call : Type 0 where
  create : MqttBrokerWrite → Call
  update : ℕ → MqttBrokerWrite → Call
  delete : ℕ → Call
  publish : ℕ → ℕ → MqttPublishConfigWrite → Call
  unpublish : ℕ → ℕ → Call
  enable : ℕ → ℕ → Bool → Call

unfoldable pub perform : Database → Call → Result Database
perform db (create request) = create_broker db request
perform db (update broker_id request) = update_broker db broker_id request
perform db (delete broker_id) = delete_broker db broker_id
perform db (publish device_id broker_id request) =
    upsert_publish_config db device_id broker_id request
perform db (unpublish device_id broker_id) = ok (delete_publish_config db device_id broker_id)
perform db (enable device_id broker_id enabled) =
    ok (set_publish_enabled db device_id broker_id enabled)

-- A call that raises is rolled back.
abbrev pub committed : Database → Result Database → Database
committed db (ok after) = after
committed db (err e) = db

unfoldable pub perform_all : Database → List Call → Database
unfolding perform
perform_all db [] = db
perform_all db (call ∷ calls) = perform_all (committed db (perform db call)) calls
