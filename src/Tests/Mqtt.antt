-- ===== src/Tests/Mqtt.antt =====
-- One broker, and what one device publishes to it.
use ghost_meter.Prelude.{
  ℕ, ◌+◌, ◌≡◌, refl, true, false, none, List, [], ◌∷◌, arith, ==_iff, nat_eq, string_eq,
}
use ghost_meter.Errors.{ok, err, conflict}
use ghost_meter.Table.{count, find, write, filter}
use ghost_meter.Dict.{get}
use ghost_meter.Services.Devices.{DeviceInstance}
use ghost_meter.Services.Mqtt.{
  MqttBrokerWrite, MqttPublishConfigWrite, Database, Publisher, has_id, named, named_other, of_pair,
  of_broker, update_broker, delete_broker, ensure_unique_name, count_configs_for_broker,
  resume_enabled_publishing, Call, create, update, delete, publish, unpublish, perform, perform_all,
}
use ghost_meter.Services.Mqtt.Brokers.{IsSettled}
use ghost_meter.Services.Mqtt.Settled.{perform_all-IsSettled}

abbrev settings : MqttBrokerWrite
settings = record {
  name = "plant";
  host = "localhost";
  port = 1883;
  username = "";
  password = "secret";
  client_id = "ghostmeter";
  use_tls = false;
}

abbrev topic : MqttPublishConfigWrite
topic = record {
  topic_template = "telemetry";
  payload_mode = "batch";
  publish_interval_seconds = 5;
  qos = 0;
  retain = false;
}

abbrev stored : Database
stored = record {
  brokers = record { id = 0; settings = settings } ∷ [];
  configs = record { device_id = 4; broker_id = 0; settings = topic; enabled = true } ∷ [];
  next_id = 1;
}

stored-IsSettled : IsSettled stored
unfolding count find has_id named of_pair of_broker
stored-IsSettled = record {
  one_name = λ name. ground arith;
  one_id = λ i. ground arith;
  fresh = λ i above. ground (arith, ==_iff 0 i);
  one_pair = λ d b. ground arith;
  present = λ b used. (record { id = 0; settings = settings }, ground (arith, ==_iff 0 b));
}

abbrev calls : List Call
calls =
    create (record settings { name = "office" })
    ∷ (publish 4 1 topic ∷ (publish 4 0 topic ∷ (delete 0 ∷ (unpublish 4 0 ∷ (delete 0 ∷ [])))))

perform_all-IsSettled_example : IsSettled (perform_all stored calls)
perform_all-IsSettled_example = perform_all-IsSettled stored calls stored-IsSettled

-- A broker that is published to is not deleted.
delete_refused : perform stored (delete 0) ≡ err (conflict "BROKER_IN_USE")
unfolding perform delete_broker find has_id count of_broker count_configs_for_broker
delete_refused = refl

-- The masked password of a response, sent back, changes nothing.
keeps_password : perform stored (update 0 (record settings { password = "****" })) ≡ ok stored
unfolding perform update_broker find has_id named_other count ensure_unique_name write named
keeps_password = refl

instance abbrev counter : Publisher ℕ
counter = record {
  set_device_meta = λ w device_id name slave_id template_name. w;
  start_publishing = λ w device_id broker_id config. (w + 1, ok tt);
}

abbrev device : DeviceInstance
device = record {
  id = 4;
  template_id = 7;
  name = "meter";
  slave_id = 1;
  status = "running";
  port = 502;
  description = none;
}

resumes_one :
    resume_enabled_publishing {W = ℕ} (device ∷ []) ((7, "meter") ∷ []) 0 stored.configs none
    ≡ (1, 1)
unfolding resume_enabled_publishing filter find get
resumes_one = refl
