-- ===== src/Proto/Messages/Events.antt =====
-- The codecs of the world config and redirect events of src/proto/messages.h.
use morton.Base.{
  ℕ, ◌^◌, ◌≤◌, ◌<◌, ◌≡◌, refl, ap, ◌∙◌, false, List, ◌++◌, some, ◌==◌, length, All, arith,
}
use morton.Base.BitList.{bits}
use morton.Proto.Bitstream.Bytes.{flat, IsByte}
use morton.Proto.Bitstream.Writer.{BitWriter, new_writer}
use morton.Proto.Bitstream.Writer.Emit.{
  Emits, Emits-trans, varint_bytes, string_bytes, write_u8-Emits, write_u32-Emits,
  write_float-Emits, write_u64-Emits, write_varint-Emits, write_string-Emits,
}
use morton.Proto.Bitstream.Reader.{new_reader}
use morton.Proto.Bitstream.Reader.Take.{Reads, then_rest}
use morton.Proto.Bitstream.Reader.Fields.{
  new_reader-IsValid, read_u8-Reads, read_u32-Reads, read_float-Reads, read_u64-Reads,
  read_varint-Reads, read_string-Reads,
}
use morton.Proto.Packet.{packet-decode, Decodes, RoundTrips, fresh, new_reader-overflow}
use morton.Proto.Messages.{
  WorldConfigEvent, write_world_config, encode_world_config, read_world_config, decode_world_config,
  world_config_type, MigrateRedirectEvent, migrate_redirect_type, write_migrate_redirect,
  read_migrate_redirect, encode_migrate_redirect, decode_migrate_redirect,
}

-- An event whose fields fit their types, with a text that is not cut.
pub record IsWorldConfig (event : WorldConfigEvent) : Type 0 where
  pub entity_fits : event.entity < 2 ^ 32
  pub tick_fits : event.tick < 2 ^ 32
  pub region_fits : event.region < 2 ^ 32
  pub world_size_fits : event.world_size < 2 ^ 32
  pub tick_rate_fits : event.tick_rate < 2 ^ 32
  pub shard_id_bytes : All IsByte event.shard_id
  pub shard_id_short : length event.shard_id < 1024

-- The bits of the event, bracketed to the right.
abbrev pub world_config_body : WorldConfigEvent → List ℕ
world_config_body event =
    bits 32 event.entity
    ++ (bits 32 event.tick
        ++ (flat (varint_bytes event.region)
            ++ (bits 32 event.world_size
                ++ (flat (varint_bytes event.tick_rate) ++ flat (string_bytes event.shard_id)))))

abbrev pub world_config_bits : WorldConfigEvent → List ℕ
world_config_bits event = bits 8 world_config_type ++ world_config_body event

write_world_config-Emits :
    (event : WorldConfigEvent) (w : BitWriter)
    → IsWorldConfig event
    → Emits w (world_config_bits event) (write_world_config event w)
unfolding write_world_config
write_world_config-Emits event w v =
    Emits-trans _ _ (write_u8-Emits w world_config_type (omega arith)) (
      Emits-trans _ _ (write_u32-Emits _ event.entity v.entity_fits) (
        Emits-trans _ _ (write_u32-Emits _ event.tick v.tick_fits) (
          Emits-trans _ _ (write_varint-Emits _ event.region) (
            Emits-trans _ _ (write_float-Emits _ event.world_size v.world_size_fits) (
              Emits-trans _ _ (write_varint-Emits _ event.tick_rate)
                (write_string-Emits _ event.shard_id v.shard_id_bytes))))))

read_world_config-Reads :
    (event : WorldConfigEvent)
    → IsWorldConfig event
    → Reads read_world_config (world_config_body event) event
unfolding read_world_config
read_world_config-Reads event v r rest k e =
    let s1 = read_u32-Reads event.entity v.entity_fits r _ k (then_rest _ _ rest e) in
    let s2 = read_u32-Reads event.tick v.tick_fits _ _ s1.valid (then_rest _ _ rest s1.left) in
    let s3 =
      read_varint-Reads event.region v.region_fits _ _ s2.valid (then_rest _ _ rest s2.left) in
    let s4 =
      read_float-Reads event.world_size v.world_size_fits _ _ s3.valid
        (then_rest _ _ rest s3.left) in
    let s5 =
      read_varint-Reads event.tick_rate v.tick_rate_fits _ _ s4.valid
        (then_rest _ _ rest s4.left) in
    let s6 =
      read_string-Reads event.shard_id v.shard_id_bytes v.shard_id_short _ rest s5.valid s5.left in
    record {
      value = λ i. record {
        entity = s1.value i;
        tick = s2.value i;
        region = s3.value i;
        world_size = s4.value i;
        tick_rate = s5.value i;
        shard_id = s6.value i;
      };
      valid = s6.valid;
      left = s6.left;
      latch = s6.latch ∙ s5.latch ∙ s4.latch ∙ s3.latch ∙ s2.latch ∙ s1.latch;
    }

decoded :
    (event : WorldConfigEvent)
    → IsWorldConfig event
    → Decodes decode_world_config (world_config_bits event) event
unfolding decode_world_config
decoded event v packet pad short bytes e =
    let start = new_reader-IsValid packet short bytes in
    let kind =
      read_u8-Reads world_config_type (omega arith) (new_reader packet) _ start
        (then_rest _ _ pad (fresh packet e)) in
    let got = read_world_config-Reads event v _ pad kind.valid kind.left in
    rw (kind.value, got.latch ∙ kind.latch ∙ new_reader-overflow packet) (ap some got.value)

-- A well-formed event that fits the buffer is encoded, and decodes to itself; one that does not
-- fit is refused.
pub encode_world_config-decode :
    (event : WorldConfigEvent) (capacity : ℕ)
    → IsWorldConfig event
    → capacity < 2 ^ 28
    → RoundTrips capacity
        (world_config_bits event)
        (encode_world_config event capacity)
        decode_world_config
        event
unfolding encode_world_config
encode_world_config-decode event capacity v h =
    packet-decode capacity (world_config_bits event) _ decode_world_config event h
      (write_world_config-Emits event (new_writer capacity) v) (decoded event v)

pub record IsRedirect (event : MigrateRedirectEvent) : Type 0 where
  pub ticket_fits : event.ticket < 2 ^ 64
  pub region_fits : event.region < 2 ^ 32
  pub endpoint_bytes : All IsByte event.endpoint
  pub endpoint_short : length event.endpoint < 1024
  pub endpoint_some : 1 ≤ length event.endpoint
  pub shard_id_bytes : All IsByte event.shard_id
  pub shard_id_short : length event.shard_id < 1024

abbrev pub redirect_body : MigrateRedirectEvent → List ℕ
redirect_body event =
    bits 64 event.ticket
    ++ (flat (varint_bytes event.region)
        ++ (flat (string_bytes event.endpoint) ++ flat (string_bytes event.shard_id)))

abbrev pub redirect_bits : MigrateRedirectEvent → List ℕ
redirect_bits event = bits 8 migrate_redirect_type ++ redirect_body event

write_migrate_redirect-Emits :
    (event : MigrateRedirectEvent) (w : BitWriter)
    → IsRedirect event
    → Emits w (redirect_bits event) (write_migrate_redirect event w)
unfolding write_migrate_redirect
write_migrate_redirect-Emits event w v =
    Emits-trans _ _ (write_u8-Emits w migrate_redirect_type (omega arith)) (
      Emits-trans _ _ (write_u64-Emits _ event.ticket v.ticket_fits) (
        Emits-trans _ _ (write_varint-Emits _ event.region) (
          Emits-trans _ _ (write_string-Emits _ event.endpoint v.endpoint_bytes)
            (write_string-Emits _ event.shard_id v.shard_id_bytes))))

read_migrate_redirect-Reads :
    (event : MigrateRedirectEvent)
    → IsRedirect event
    → Reads read_migrate_redirect (redirect_body event) event
unfolding read_migrate_redirect
read_migrate_redirect-Reads event v r rest k e =
    let s1 = read_u64-Reads event.ticket v.ticket_fits r _ k (then_rest _ _ rest e) in
    let s2 =
      read_varint-Reads event.region v.region_fits _ _ s1.valid (then_rest _ _ rest s1.left) in
    let s3 =
      read_string-Reads event.endpoint v.endpoint_bytes v.endpoint_short _ _ s2.valid
        (then_rest _ _ rest s2.left) in
    let s4 =
      read_string-Reads event.shard_id v.shard_id_bytes v.shard_id_short _ rest s3.valid s3.left in
    record {
      value = λ i. record {
        ticket = s1.value i;
        region = s2.value i;
        endpoint = s3.value i;
        shard_id = s4.value i;
      };
      valid = s4.valid;
      left = s4.left;
      latch = s4.latch ∙ s3.latch ∙ s2.latch ∙ s1.latch;
    }

decoded_redirect :
    (event : MigrateRedirectEvent)
    → IsRedirect event
    → Decodes decode_migrate_redirect (redirect_bits event) event
unfolding decode_migrate_redirect
decoded_redirect event v packet pad short bytes e =
    let nonempty : (length event.endpoint == 0) ≡ false = ground (arith, v.endpoint_some) in
    let start = new_reader-IsValid packet short bytes in
    let kind =
      read_u8-Reads migrate_redirect_type (omega arith) (new_reader packet) _ start
        (then_rest _ _ pad (fresh packet e)) in
    let got = read_migrate_redirect-Reads event v _ pad kind.valid kind.left in
    rw (kind.value, got.latch ∙ kind.latch ∙ new_reader-overflow packet, got.value, nonempty) refl

-- A well-formed redirect that fits the buffer is encoded, and decodes to itself; one that does not
-- fit is refused.
pub encode_migrate_redirect-decode :
    (event : MigrateRedirectEvent) (capacity : ℕ)
    → IsRedirect event
    → capacity < 2 ^ 28
    → RoundTrips capacity
        (redirect_bits event)
        (encode_migrate_redirect event capacity)
        decode_migrate_redirect
        event
unfolding encode_migrate_redirect
encode_migrate_redirect-decode event capacity v h =
    packet-decode capacity (redirect_bits event) _ decode_migrate_redirect event h
      (write_migrate_redirect-Emits event (new_writer capacity) v) (decoded_redirect event v)
