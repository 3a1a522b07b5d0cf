-- ===== src/Messages.antt =====
-- The device-to-cloud messages of mbed/COMPONENT_AZIOT_OTA/iot-hub-device-update_patch/utils/
-- d2c_messaging/d2c_messaging.cpp: the messages, and the callbacks that say how they end. A callback
-- and a user's data are the numbers of what they point to; calling one is an event.
pub mod Strategy
pub mod Sending
pub mod Answers
pub mod Store
pub mod Conserved
pub mod Accepted
pub mod Verdict
pub mod Latest
pub mod Contents
pub mod Mailbox
mod Tests
use mbed_ce_client_for_azure.Base.{ℕ, Option, none, some, List, [], ◌∷◌, ◌++◌, Bytes}

-- ADUC_D2C_Message_Status
pub data MessageStatus : Type 0 where
  pending in_progress waiting_for_response success failed : MessageStatus
  replaced canceled max_retries_reached : MessageStatus

-- ADUC_D2C_Message
pub record Message : Type 0 where
  pub cloud_service_handle : Option ℕ  -- the address of a client handle
  pub original_content : Option ℕ
  pub content : Option Bytes
  pub content_submit_time : ℕ
  pub response_callback : Option ℕ
  pub completed_callback : Option ℕ
  pub status_changed_callback : Option ℕ
  pub status : MessageStatus
  pub user_data : Option ℕ
  pub last_http_status : ℕ
  pub attempts : ℕ  -- unsigned int

-- The message that `memset` leaves.
abbrev pub zeroed_message : Message
zeroed_message = record {
  cloud_service_handle = none;
  original_content = none;
  content = none;
  content_submit_time = 0;
  response_callback = none;
  completed_callback = none;
  status_changed_callback = none;
  status = pending;
  user_data = none;
  last_http_status = 0;
  attempts = 0;
}

-- What leaves the file: the calls of the callbacks, with the message as they see it, and what is
-- sent to the cloud.
pub data MessageEvent : Type 0 where
  status_changed : (callback : ℕ) → Message → MessageEvent
  completed : (callback : ℕ) → Message → MessageEvent
  sent : (handle : ℕ) → Bytes → MessageEvent

unfoldable pub set_message_status : Message → MessageStatus → Message × List MessageEvent
set_message_status m s =
    let m' : Message = record m { status = s } in
    elim m.status_changed_callback [ none ↦ (m', []) | some k ↦ (m', status_changed k m' ∷ []) ]

-- OnMessageProcessingCompleted, with DestroyMessageData
unfoldable pub processing_completed : Message → MessageStatus → Message × List MessageEvent
unfolding set_message_status
processing_completed m s = elim m.content [
  | none ↦ (m, [])
  | some c ↦
      let (m', events) = set_message_status m s in
      elim m'.completed_callback [
        | none ↦ (zeroed_message, events)
        | some k ↦ (zeroed_message, events ++ completed k m' ∷ [])
      ]
]
