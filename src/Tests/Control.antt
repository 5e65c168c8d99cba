-- ===== src/Tests/Control.antt =====
-- A client that enables an event of another device, and one that gives it up.
use google_lwis.Prelude.{
  ℕ, ◌*◌, ◌+◌, ◌^◌, ◌≡◌, refl, true, false, none, some, [], ◌∷◌, arith, if◌then◌else◌,
}
use google_lwis.Io.Scratch.{Scratch}
use google_lwis.Event.States.{EventControl, DeviceEventState}
use google_lwis.Device.{Device, TriggerEvent}
use google_lwis.Subscription.{
  Devices, Top, Subscription, put, lwis_find_dev_by_id, lwis_device_event_update_subscriber,
  lwis_top_event_unsubscribe,
}
use google_lwis.Subscription.Laws.{top_unsubscribe-eq}
use google_lwis.Subscription.Control.{Core, lwis_client_event_control_set}
use google_lwis.Subscription.Control.Counted.{IsCounted, control_set-IsCounted}
use google_lwis.Tests.{kernel, ops, world}
use google_lwis.Tests.Events.{device}

-- The heartbeat of device 5.
abbrev of_five : ℕ
of_five = 5 * 2 ^ 32 + 1

abbrev five : Device
five = record device { id = 5; heartbeat = false; event_states = [] }

abbrev three : Device
three = record device { event_states = []; heartbeat = false }

abbrev start : Core Scratch
start = record {
  world = world;
  devices = record { own = three; others = five ∷ [] };
  top_dev = some (record { event_subscriber = []; emitted = [] });
  event_states = [];
}

abbrev enabling : EventControl
enabling = record { event_id = of_five; flags = 3 }

-- The devices and the client afterwards: the subscription is in the table.
abbrev done : Core Scratch
done = record {
  world = record world { calls = 4 };
  devices = record {
    own = record three {
      heartbeat = true;
      event_states =
          record {
            event_id = of_five;
            enable_counter = 1;
            event_counter = 0;
            has_subscriber = false;
          }
          ∷ [];
    };
    others =
        record five {
          event_states =
              record {
                event_id = of_five;
                enable_counter = 0;
                event_counter = 0;
                has_subscriber = true;
              }
              ∷ [];
        }
        ∷ [];
  };
  top_dev = some (record {
    event_subscriber = record { event_id = of_five; receiver_dev = 3; trigger_dev = 5 } ∷ [];
    emitted = [];
  });
  event_states = enabling ∷ [];
}

abbrev one_bucket : ℕ → ℕ
one_bucket id = 0

enabled : lwis_client_event_control_set kernel one_bucket ops start enabling ≡ some (0, done)
unfolding lwis_client_event_control_set google_lwis.Subscription.Control.change_flags
    google_lwis.Subscription.Control.update_subscription
    google_lwis.Subscription.Control.subscribe_to google_lwis.Subscription.Control.create_states
    google_lwis.Subscription.Control.add_state google_lwis.Subscription.Control.add_client_state
    google_lwis.Subscription.Control.lwis_client_event_subscribe
    google_lwis.Subscription.lwis_top_event_subscribe google_lwis.Subscription.subscribe_found
    google_lwis.Subscription.lwis_find_dev_by_id
    google_lwis.Subscription.lwis_device_event_update_subscriber google_lwis.Event.States.Table.find
    google_lwis.Event.States.Table.modify
    google_lwis.Event.States.lwis_client_event_state_find_or_create
    google_lwis.Event.States.lwis_device_event_state_find_or_create
    google_lwis.Device.lwis_device_event_flags_updated google_lwis.Device.update_state
    google_lwis.Device.lwis_device_event_enable
enabled = refl

counted : IsCounted three ([] ∷ [] ∷ [])
unfolding google_lwis.Event.States.Table.find
counted e = refl

control_set-IsCounted_example : IsCounted (done.devices.own) ((enabling ∷ []) ∷ [] ∷ [])
control_set-IsCounted_example =
    control_set-IsCounted kernel one_bucket ops start done enabling 0 [] ([] ∷ []) counted
      (omega arith) enabled (λ e. omega (arith, e))

-- A second subscription to the event, by device 7.
abbrev both : Top
both = record {
  event_subscriber =
      record { event_id = of_five; receiver_dev = 3; trigger_dev = 5 }
      ∷ record { event_id = of_five; receiver_dev = 7; trigger_dev = 5 }
      ∷ [];
  emitted =
      record { trigger_event_id = of_five; trigger_event_count = 1; trigger_event_timestamp = 0 }
      ∷ [];
}

abbrev seven_left : Top
seven_left = record {
  event_subscriber = record { event_id = of_five; receiver_dev = 7; trigger_dev = 5 } ∷ [];
  emitted = [];
}

top_unsubscribe-eq_example : lwis_top_event_unsubscribe one_bucket (done.devices) both of_five 3 ≡ (
    if true
    then some (
      0,
      put
          (done.devices)
          5
          (lwis_device_event_update_subscriber
            (record five {
              event_states =
                  record {
                    event_id = of_five;
                    enable_counter = 0;
                    event_counter = 0;
                    has_subscriber = true;
                  }
                  ∷ [];
            })
            of_five
            true).1,
      seven_left,
    )
    else none)
unfolding google_lwis.Subscription.lwis_find_dev_by_id google_lwis.Event.States.Table.find
top_unsubscribe-eq_example =
    top_unsubscribe-eq one_bucket of_five 3 (done.devices) both
      (record five {
        event_states =
            record {
              event_id = of_five;
              enable_counter = 0;
              event_counter = 0;
              has_subscriber = true;
            }
            ∷ [];
      })
      (λ e. refl, (λ e. refl, tt)) refl
