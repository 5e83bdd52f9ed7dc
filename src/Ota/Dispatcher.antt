-- ===== src/Ota/Dispatcher.antt =====
-- ota-service/src/dispatcher/mod.rs: the channels of the robots that listen. tokio's broadcast channel
-- is a parameter; `send` drops the result, as the source does.
use robot_fleet.Prelude.{
  ℕ, String, Option, none, some, List, [], ◌∷◌, Result, ok, err, Method, if◌then◌else◌, nat_eq,
  ◌==◌,
}
use robot_fleet.Ota.Error.{Error, no_active_subscribers}

pub record UpdateCommand : Type 0 where
  pub update_job_id : String
  pub target_version : String
  pub artifact_url : String
  pub sha256 : String
  pub size_bytes : ℕ
  pub apply_by : Option ℕ

pub record Broadcast : Type 1 where
  pub Sender : Type 0
  pub Receiver : Type 0
  pub channel : ℕ → Sender
  pub subscribe : Sender → Receiver × Sender
  pub receiver_count : Sender → ℕ
  pub send : UpdateCommand → Sender → Sender

abbrev pub channel_capacity : ℕ
channel_capacity = 8

module _ (broadcast : Broadcast) where
  -- the map from devices to senders
  abbrev pub Senders : Type 0
  Senders = List (String × broadcast.Sender)

  unfoldable pub sender_of : String → Senders → Option broadcast.Sender
  sender_of device_id [] = none
  sender_of device_id ((k, s) ∷ rest) = if k == device_id then some s else sender_of device_id rest

  unfoldable pub set_sender : String → broadcast.Sender → Senders → Senders
  set_sender device_id s [] = (device_id, s) ∷ []
  set_sender device_id s ((k, old) ∷ rest) =
      if k == device_id then (k, s) ∷ rest else (k, old) ∷ set_sender device_id s rest

  abbrev pub or_channel : Option broadcast.Sender → broadcast.Sender
  or_channel none = broadcast.channel channel_capacity
  or_channel (some s) = s

  unfoldable pub subscribe : String → Senders → broadcast.Receiver × Senders
  subscribe device_id senders =
      let (receiver, s) = broadcast.subscribe (or_channel (sender_of device_id senders)) in
      (receiver, set_sender device_id s senders)

  abbrev pub send_to :
      String → UpdateCommand → Option broadcast.Sender → Senders → Result Error ℕ × Senders
  send_to device_id cmd none senders = (err (no_active_subscribers device_id), senders)
  send_to device_id cmd (some s) senders =
      if nat_eq (broadcast.receiver_count s) 0
      then (err (no_active_subscribers device_id), senders)
      else (ok (broadcast.receiver_count s), set_sender device_id (broadcast.send cmd s) senders)

  unfoldable pub dispatch : String → UpdateCommand → Method Senders Error ℕ
  dispatch device_id cmd senders = send_to device_id cmd (sender_of device_id senders) senders
