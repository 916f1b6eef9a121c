-- ===== src/Tests/Protocol.antt =====
-- The codecs and the sequence order on concrete inputs.
use morton.Base.{
  ◌≡◌, refl, ◌↔◌, ◌⊎◌, ◌++◌, ◌<◌, ◌≤◌, ◌+◌, ℕ, Bool, true, not, List, [], ◌∷◌, none, some, length,
  All, ltb, sub32, ◌^◌, ◌&&◌, arith,
}
use morton.Base.BitList.{bits}
use morton.Core.Sequence.{sequence_greater, sequence_greater_swap, tick_greater, tick_greater_swap}
use morton.Proto.Bitstream.Bytes.{flat, IsByte}
use morton.Proto.Bitstream.Writer.{BitWriter, new_writer, write_bits, finished}
use morton.Proto.Bitstream.Writer.Append.{Writes, write_bits-Writes, contents}
use morton.Proto.Bitstream.Writer.Emit.{varint_bytes, string_bytes, varint_groups}
use morton.Proto.Bitstream.Writer.Finish.{new_writer-IsValid, finished-contents, padding}
use morton.Proto.Bitstream.Reader.{
  new_reader, read_bits, read_varint, read_varint_loop, read_string, read_bytes, read_u8, read_u64,
  read_each, read_loop,
}
use morton.Proto.Bitstream.Reader.Take.{Read, remaining, read_bits_short}
use morton.Proto.Bitstream.Reader.Fields.{
  new_reader-IsValid, read_varint-Reads, read_string-Reads, read_bytes-Reads,
}
use morton.Proto.Bitstream.Ranged.{
  IsRange, read_ranged, count_bits, read_ranged-Reads, bits_required, bits_required-fits,
}
use morton.Proto.Packet.{RoundTrips}
use morton.Proto.Messages.{
  WorldConfigEvent, MigrateRedirectEvent, ConnectCredential, encode_world_config,
  decode_world_config, encode_migrate_redirect, decode_migrate_redirect, encode_credential,
  decode_credential, session, migration,
}
use morton.Proto.Messages.Events.{
  encode_world_config-decode, encode_migrate_redirect-decode, IsWorldConfig, IsRedirect,
  world_config_bits, redirect_bits,
}
use morton.Proto.Messages.Credential.{
  encode_credential-decode, encode_credential-eq-none_iff, decode_credential_bounds, IsCredential,
}

sequence_greater_swap_example : sequence_greater 3 65530 ≡ not (sequence_greater 65530 3)
sequence_greater_swap_example =
    sequence_greater_swap 3 65530 (omega arith) (omega arith) (λ e. omega arith)

tick_greater_swap_example : tick_greater 3 4294967290 ≡ not (tick_greater 4294967290 3)
tick_greater_swap_example =
    tick_greater_swap 3 4294967290 (omega arith) (omega arith) (λ e. omega arith)

abbrev pub is_bytes : List ℕ → Bool
is_bytes [] = true
is_bytes (b ∷ bs) = ltb b 256 && is_bytes bs

pub is_bytes_sound : (bs : List ℕ) → is_bytes bs ≡ true → All IsByte bs
is_bytes_sound [] h = tt
is_bytes_sound (b ∷ bs) h = ground (arith, is_bytes_sound bs)

-- 300 in two groups of seven bits.
abbrev varint_packet : List ℕ
varint_packet = 172 ∷ 2 ∷ 9 ∷ []

varint_packet-starts : remaining (new_reader varint_packet) ≡ flat (varint_bytes 300) ++ bits 8 9
unfolding new_reader bits varint_groups
varint_packet-starts = refl

read_varint-Reads_example :
    Read (new_reader varint_packet) 300 (bits 8 9) (read_varint (new_reader varint_packet))
read_varint-Reads_example =
    read_varint-Reads 300 (omega arith) (new_reader varint_packet) (bits 8 9)
      (new_reader-IsValid varint_packet (omega arith) (is_bytes_sound varint_packet refl))
      varint_packet-starts

-- The text "hi!", with a byte after it.
abbrev greeting : List ℕ
greeting = 104 ∷ 105 ∷ 33 ∷ []

abbrev greeting_packet : List ℕ
greeting_packet = 3 ∷ 104 ∷ 105 ∷ 33 ∷ 7 ∷ []

greeting_packet-starts :
    remaining (new_reader greeting_packet) ≡ flat (string_bytes greeting) ++ bits 8 7
unfolding new_reader bits varint_groups
greeting_packet-starts = refl

read_string-Reads_example :
    Read (new_reader greeting_packet) greeting (bits 8 7) (read_string (new_reader greeting_packet))
read_string-Reads_example =
    read_string-Reads greeting (is_bytes_sound greeting refl) (omega arith)
      (new_reader greeting_packet) (bits 8 7)
      (new_reader-IsValid greeting_packet (omega arith) (is_bytes_sound greeting_packet refl))
      greeting_packet-starts

greeting-starts : remaining (new_reader greeting) ≡ flat (104 ∷ 105 ∷ []) ++ bits 8 33
unfolding new_reader bits
greeting-starts = refl

read_bytes-Reads_example :
    Read (new_reader greeting) (104 ∷ 105 ∷ []) (bits 8 33) (read_bytes (new_reader greeting) 2)
read_bytes-Reads_example =
    read_bytes-Reads (104 ∷ 105 ∷ []) (is_bytes_sound (104 ∷ 105 ∷ []) refl) (new_reader greeting)
      (bits 8 33) (new_reader-IsValid greeting (omega arith) (is_bytes_sound greeting refl))
      greeting-starts

-- -1 of the range from -2 to 5, in three bits: the byte 193 is 1 and then 24.
ranged-starts : remaining (new_reader (193 ∷ [])) ≡ bits (bits_required 4294967294 5) 1 ++ bits 5 24
unfolding new_reader bits bits_required count_bits
ranged-starts = refl

narrow-IsRange : IsRange 4294967294 5
unfolding bits_required count_bits
narrow-IsRange = record {
  min_fits = omega arith;
  max_fits = omega arith;
  ordered = omega arith;
  narrow = omega arith;
  safe = omega arith;
}

read_ranged-Reads_example :
    Read
      (new_reader (193 ∷ []))
      4294967295
      (bits 5 24)
      (read_ranged (new_reader (193 ∷ [])) 4294967294 5 narrow-IsRange)
read_ranged-Reads_example =
    read_ranged-Reads 4294967295 4294967294 5 narrow-IsRange
      (omega arith, omega arith, omega arith, refl, refl) (new_reader (193 ∷ [])) (bits 5 24)
      (new_reader-IsValid (193 ∷ []) (omega arith) (is_bytes_sound (193 ∷ []) refl)) ranged-starts

bits_required-fits_example :
    (sub32 5 4294967294 < 2 ^ bits_required 4294967294 5) × (bits_required 4294967294 5 ≤ 32)
bits_required-fits_example = bits_required-fits 4294967294 5

one_byte : length (remaining (new_reader (193 ∷ []))) < 9
unfolding new_reader bits
one_byte = omega arith

read_bits_short_example :
    read_bits (new_reader (193 ∷ [])) 9 ≡ (0, record (new_reader (193 ∷ [])) { overflow = true })
read_bits_short_example =
    read_bits_short (new_reader (193 ∷ [])) 9
      (new_reader-IsValid (193 ∷ []) (omega arith) (is_bytes_sound (193 ∷ []) refl)) (omega arith)
      one_byte

five_fit : (new_writer 4).bit_pos + 5 ≤ (new_writer 4).capacity_bits
unfolding new_writer
five_fit = omega arith

write_bits-Writes_example : Writes (new_writer 4) (bits 5 300) (write_bits (new_writer 4) 300 5)
write_bits-Writes_example =
    write_bits-Writes (new_writer 4) 300 5 (new_writer-IsValid 4 (omega arith)) (omega arith)
      (omega arith) five_fit

abbrev half_full : BitWriter
half_full = write_bits (new_writer 4) 300 5

half_full-Writes : Writes (new_writer 4) (bits 5 300) half_full
half_full-Writes =
    write_bits-Writes (new_writer 4) 300 5 (new_writer-IsValid 4 (omega arith)) (omega arith)
      (omega arith) five_fit

finished-contents_example : flat (finished half_full) ≡ contents half_full ++ padding half_full
finished-contents_example = finished-contents half_full half_full-Writes.valid

-- Messages.
abbrev config : WorldConfigEvent
config = record {
  entity = 70000;
  tick = 12;
  region = 300;
  world_size = 4096;
  tick_rate = 30;
  shard_id = 97 ∷ 98 ∷ [];
}

config-IsWorldConfig : IsWorldConfig config
config-IsWorldConfig = record {
  entity_fits = omega arith;
  tick_fits = omega arith;
  region_fits = omega arith;
  world_size_fits = omega arith;
  tick_rate_fits = omega arith;
  shard_id_bytes = is_bytes_sound (97 ∷ 98 ∷ []) refl;
  shard_id_short = omega arith;
}

encode_world_config-decode_example :
    RoundTrips 64
      (world_config_bits config)
      (encode_world_config config 64)
      decode_world_config
      config
encode_world_config-decode_example =
    encode_world_config-decode config 64 config-IsWorldConfig (omega arith)

abbrev redirect : MigrateRedirectEvent
redirect = record { ticket = 5000000000; region = 3; endpoint = greeting; shard_id = [] }

redirect-IsRedirect : IsRedirect redirect
redirect-IsRedirect = record {
  ticket_fits = omega arith;
  region_fits = omega arith;
  endpoint_bytes = is_bytes_sound greeting refl;
  endpoint_short = omega arith;
  endpoint_some = omega arith;
  shard_id_bytes = tt;
  shard_id_short = omega arith;
}

encode_migrate_redirect-decode_example :
    RoundTrips 64
      (redirect_bits redirect)
      (encode_migrate_redirect redirect 64)
      decode_migrate_redirect
      redirect
encode_migrate_redirect-decode_example =
    encode_migrate_redirect-decode redirect 64 redirect-IsRedirect (omega arith)

abbrev player : ConnectCredential
player = record { kind = migration; token = 123456789; player_id = greeting }

player-IsCredential : IsCredential player
player-IsCredential = record {
  token_fits = omega arith;
  player_id_bytes = is_bytes_sound greeting refl;
  player_id_some = omega arith;
  player_id_short = omega arith;
}

encode_credential-decode_example :
    (token : List ℕ) × (encode_credential player ≡ some token)
    × (length token ≡ 32)
    × (decode_credential token ≡ some player)
encode_credential-decode_example = encode_credential-decode player player-IsCredential

abbrev nobody : ConnectCredential
nobody = record { kind = session; token = 1; player_id = [] }

encode_credential-eq-none_iff_example :
    (encode_credential nobody ≡ none) ↔ ((length (nobody.player_id) ≡ 0) ⊎ (20 < 0))
encode_credential-eq-none_iff_example = encode_credential-eq-none_iff nobody (omega arith) tt

-- The kind, the token and the text "hi!" of `player`.
abbrev player_bytes : List ℕ
player_bytes = 1 ∷ 21 ∷ 205 ∷ 91 ∷ 7 ∷ 0 ∷ 0 ∷ 0 ∷ 0 ∷ 3 ∷ 104 ∷ 105 ∷ 33 ∷ []

player_bytes-decode : decode_credential player_bytes ≡ some player
unfolding decode_credential read_u8 read_u64 read_string read_varint read_varint_loop read_each
    read_bits read_loop new_reader
player_bytes-decode = refl

decode_credential_bounds_example : (1 ≤ 3) × (3 ≤ 20)
decode_credential_bounds_example = decode_credential_bounds player_bytes player player_bytes-decode
