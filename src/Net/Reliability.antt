-- ===== src/Net/Reliability.antt =====
-- `ReliableEndpoint` of src/net/reliability.h and reliability.cpp: its state and the constants of
-- src/net/protocol.h that it uses. The `std::map` of early messages is an association list.
pub mod Send
pub mod Receive
pub mod Rates
pub mod Acks
pub mod Duplicates
pub mod Order
pub mod Wire
use morton.Base.{
  ℕ, suc, ◌+◌, Bool, true, false, List, [], ◌∷◌, ◌++◌, Option, none, some, ltb, ◌==◌, ◌||◌,
  if◌then◌else◌, length, u16, u64,
}
use morton.Core.Float.{F32}
use morton.Net.SequenceBuffer.{SequenceBuffer, new_buffer, reset}

abbrev pub max_reliable_per_packet : ℕ
max_reliable_per_packet = 8

abbrev pub max_reliable_message_size : ℕ
max_reliable_message_size = 512

pub record ReliableMessage : Type 0 where
  pub id : ℕ
  pub channel : ℕ
  pub sends : ℕ
  pub payload : List ℕ

-- `message_ids` is the first `message_count` entries of the array.
pub record SentPacket : Type 0 where
  pub send_time_us : ℕ
  pub size : ℕ
  pub acked : Bool
  pub message_ids : List ℕ

abbrev pub sent_initial : SentPacket
sent_initial = record { send_time_us = 0; size = 0; acked = false; message_ids = [] }

pub record ReceivedPacket : Type 0 where
  pub recv_time_us : ℕ
  pub size : ℕ

abbrev pub received_initial : ReceivedPacket
received_initial = record { recv_time_us = 0; size = 0 }

-- The counters of `NetworkStats`.
pub record Counters : Type 0 where
  pub packets_sent : ℕ
  pub packets_received : ℕ
  pub packets_acked : ℕ
  pub packets_lost : ℕ
  pub reliable_retransmits : ℕ

-- The sums of the current rate window.
pub record RateWindow : Type 0 where
  pub start_us : ℕ
  pub bytes_sent : ℕ
  pub bytes_recv : ℕ
  pub packets_recv : ℕ
  pub packets_expected : ℕ
  pub packets_acked : ℕ
  pub packets_lost : ℕ

abbrev pub empty_window : ℕ → RateWindow
empty_window start_us = record {
  start_us = start_us;
  bytes_sent = 0;
  bytes_recv = 0;
  packets_recv = 0;
  packets_expected = 0;
  packets_acked = 0;
  packets_lost = 0;
}

-- The running estimates, and the `float` fields of `NetworkStats`.
pub record Estimates (F : F32) : Type 0 where
  pub rtt_ewma_ms : F.Carrier
  pub rtt_min_ms : F.Carrier
  pub jitter_ewma_ms : F.Carrier
  pub rtt_initialized : Bool
  pub rates_initialized : Bool
  pub stats_rtt_ms : F.Carrier
  pub stats_rtt_jitter_ms : F.Carrier
  pub stats_rtt_min_ms : F.Carrier
  pub sent_loss_percent : F.Carrier
  pub recv_loss_percent : F.Carrier
  pub sent_kbps : F.Carrier
  pub recv_kbps : F.Carrier

pub record Endpoint (F : F32) : Type 0 where
  pub sequence : ℕ
  pub next_message_id : ℕ
  pub expected_message_id : ℕ
  pub sent : SequenceBuffer SentPacket
  pub received : SequenceBuffer ReceivedPacket
  pub unacked : List ReliableMessage
  pub reorder_buffer : List (ℕ × ReliableMessage)
  pub counters : Counters
  pub estimates : Estimates F
  pub window : RateWindow
  pub highest_received : ℕ
  pub has_received : Bool
  pub loss_cursor : ℕ
  pub has_loss_cursor : Bool

module _ (F : F32) where
  abbrev pub no_estimates : Estimates F
  no_estimates = record {
    rtt_ewma_ms = F.decimal 0 0;
    rtt_min_ms = F.decimal 0 0;
    jitter_ewma_ms = F.decimal 0 0;
    rtt_initialized = false;
    rates_initialized = false;
    stats_rtt_ms = F.decimal 0 0;
    stats_rtt_jitter_ms = F.decimal 0 0;
    stats_rtt_min_ms = F.decimal 0 0;
    sent_loss_percent = F.decimal 0 0;
    recv_loss_percent = F.decimal 0 0;
    sent_kbps = F.decimal 0 0;
    recv_kbps = F.decimal 0 0;
  }

  -- The constructor, which is `reset` on fresh buffers.
  unfoldable pub new_endpoint : Endpoint F
  new_endpoint = record {
    sequence = 0;
    next_message_id = 0;
    expected_message_id = 0;
    sent = new_buffer sent_initial;
    received = new_buffer received_initial;
    unacked = [];
    reorder_buffer = [];
    counters = record {
      packets_sent = 0;
      packets_received = 0;
      packets_acked = 0;
      packets_lost = 0;
      reliable_retransmits = 0;
    };
    estimates = no_estimates;
    window = empty_window 0;
    highest_received = 0;
    has_received = false;
    loss_cursor = 0;
    has_loss_cursor = false;
  }

  unfoldable pub reset_endpoint : Endpoint F → Endpoint F
  reset_endpoint e = record new_endpoint { sent = reset e.sent; received = reset e.received }
