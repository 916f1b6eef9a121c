-- ===== src/Proto/Messages.antt =====
-- src/proto/messages.h: the events and the connect credential. A `float` is its
-- bit pattern (`write_float` and `read_float` copy the bits), a text is the list of its bytes, and
-- an encoder returns the bytes that it leaves in `out`; `none` is its result 0.
pub mod Credential
pub mod Events
pub mod Inputs
use morton.Base.{
  ℕ, ◌+◌, ◌-◌, ◌*◌, ◌%◌, ◌≤◌, ◌<◌, Bool, true, false, not, ◌&&◌, ◌||◌, List, [], ◌∷◌, ◌++◌, Option,
  none, some, ltb, ◌==◌, if◌then◌else◌, length, replicate,
}
use morton.Proto.Packet.{packet_of}
use morton.Proto.Bitstream.Writer.{
  BitWriter, new_writer, write_u8, write_u32, write_float, write_u64, write_varint, write_string,
  finished,
}
use morton.Proto.Bitstream.Reader.{
  BitReader, new_reader, read_u8, read_u32, read_float, read_u64, read_varint, read_string,
}

abbrev pub world_config_type : ℕ
world_config_type = 3

abbrev pub migrate_redirect_type : ℕ
migrate_redirect_type = 1

pub record WorldConfigEvent : Type 0 where
  pub entity : ℕ
  pub tick : ℕ
  pub region : ℕ
  pub world_size : ℕ
  pub tick_rate : ℕ
  pub shard_id : List ℕ

pub record MigrateRedirectEvent : Type 0 where
  pub ticket : ℕ
  pub region : ℕ
  pub endpoint : List ℕ
  pub shard_id : List ℕ

unfoldable pub write_world_config : WorldConfigEvent → BitWriter → BitWriter
write_world_config event w0 =
    let w1 = write_u8 w0 world_config_type in
    let w2 = write_u32 w1 event.entity in
    let w3 = write_u32 w2 event.tick in
    let w4 = write_varint w3 event.region in
    let w5 = write_float w4 event.world_size in
    let w6 = write_varint w5 event.tick_rate in write_string w6 event.shard_id

unfoldable pub encode_world_config : WorldConfigEvent → ℕ → Option (List ℕ)
encode_world_config event capacity = packet_of (write_world_config event (new_writer capacity))

unfoldable pub read_world_config : BitReader → WorldConfigEvent × BitReader
read_world_config r0 =
    let (entity, r1) = read_u32 r0 in
    let (tick, r2) = read_u32 r1 in
    let (region, r3) = read_varint r2 in
    let (world_size, r4) = read_float r3 in
    let (tick_rate, r5) = read_varint r4 in
    let (shard_id, r6) = read_string r5 in
    (
      record {
        entity = entity;
        tick = tick;
        region = region;
        world_size = world_size;
        tick_rate = tick_rate;
        shard_id = shard_id;
      },
      r6,
    )

unfoldable pub decode_world_config : List ℕ → Option WorldConfigEvent
decode_world_config data_bytes =
    let (kind, r) = read_u8 (new_reader data_bytes) in
    let (event, r') = read_world_config r in
    if not (kind == world_config_type) then none else if r'.overflow then none else some event

unfoldable pub write_migrate_redirect : MigrateRedirectEvent → BitWriter → BitWriter
write_migrate_redirect event w0 =
    let w1 = write_u8 w0 migrate_redirect_type in
    let w2 = write_u64 w1 event.ticket in
    let w3 = write_varint w2 event.region in
    let w4 = write_string w3 event.endpoint in write_string w4 event.shard_id

unfoldable pub encode_migrate_redirect : MigrateRedirectEvent → ℕ → Option (List ℕ)
encode_migrate_redirect event capacity =
    packet_of (write_migrate_redirect event (new_writer capacity))

unfoldable pub read_migrate_redirect : BitReader → MigrateRedirectEvent × BitReader
read_migrate_redirect r0 =
    let (ticket, r1) = read_u64 r0 in
    let (region, r2) = read_varint r1 in
    let (endpoint, r3) = read_string r2 in
    let (shard_id, r4) = read_string r3 in
    (record { ticket = ticket; region = region; endpoint = endpoint; shard_id = shard_id }, r4)

unfoldable pub decode_migrate_redirect : List ℕ → Option MigrateRedirectEvent
decode_migrate_redirect data_bytes =
    let (kind, r) = read_u8 (new_reader data_bytes) in
    let (event, r') = read_migrate_redirect r in
    if not (kind == migrate_redirect_type)
    then none
    else if r'.overflow || length event.endpoint == 0
    then none
    else some event

pub data CredentialKind : Type 0 where
  session migration : CredentialKind

abbrev pub kind_code : CredentialKind → ℕ
kind_code session = 0
kind_code migration = 1

pub record ConnectCredential : Type 0 where
  pub kind : CredentialKind
  pub token : ℕ
  pub player_id : List ℕ

abbrev pub connect_token_bytes : ℕ
connect_token_bytes = 32

abbrev pub max_player_id_bytes : ℕ
max_player_id_bytes = 20

unfoldable pub write_credential : ConnectCredential → BitWriter → BitWriter
write_credential credential w0 =
    let w1 = write_u8 w0 (kind_code credential.kind) in
    let w2 = write_u64 w1 credential.token in write_string w2 credential.player_id

-- The token is the bytes written and, from `out->fill(0)`, zeros up to its 32 bytes.
unfoldable pub encode_credential : ConnectCredential → Option (List ℕ)
encode_credential credential =
    let w = write_credential credential (new_writer connect_token_bytes) in
    if length credential.player_id == 0 || ltb max_player_id_bytes (length credential.player_id)
    then none
    else if w.overflow
    then none
    else some (finished w ++ replicate (connect_token_bytes - length (finished w)) 0)

abbrev pub kind_of_code : ℕ → CredentialKind
kind_of_code code = if code == 0 then session else migration

unfoldable pub decode_credential : List ℕ → Option ConnectCredential
decode_credential bytes =
    let (kind, r1) = read_u8 (new_reader bytes) in
    let (token, r2) = read_u64 r1 in
    let (player_id, r3) = read_string r2 in
    if ltb 1 kind
    then none
    else if r3.overflow || length player_id == 0 || ltb max_player_id_bytes (length player_id)
    then none
    else some (record { kind = kind_of_code kind; token = token; player_id = player_id })
