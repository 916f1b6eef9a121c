-- ===== src/Proto/Messages/Inputs.antt =====
-- The input packets of src/proto/messages.h. The count is at most 16, so its `i32` is not negative.
pub mod Starved
use morton.Base.{
  ℕ, zero, suc, Bool, true, false, not, ◌||◌, List, [], ◌∷◌, Option, none, some, ltb, leb, ◌==◌,
  if◌then◌else◌, length, min, take, arith,
}
use morton.Core.Float.{F32}
use morton.Proto.Packet.{packet_of}
use morton.Proto.Quantizer as Quantizer
use morton.Proto.Bitstream.Writer.{
  BitWriter, new_writer, write_u8, write_u32, write_bits, write_bool,
}
use morton.Proto.Bitstream.Reader.{BitReader, new_reader, read_u8, read_u32, read_bits, read_bool}
use morton.Proto.Bitstream.Ranged.{IsRange, bits_required, count_bits, write_ranged, read_ranged}
use morton.Sim.Movement.{MoveInput, input_axis_quantizer}

abbrev pub max_inputs_per_packet : ℕ
max_inputs_per_packet = 16

pub count-IsRange : IsRange 0 max_inputs_per_packet
unfolding bits_required count_bits
count-IsRange = record {
  min_fits = omega arith;
  max_fits = omega arith;
  ordered = omega arith;
  narrow = omega arith;
  safe = omega arith;
}

-- `Channel::kInput`.
abbrev pub input_channel : ℕ
input_channel = 1

pub record InputPacket (F : F32) : Type 0 where
  pub client_tick : ℕ
  pub acked_snapshot_tick : ℕ
  pub inputs : List (MoveInput F)

module _ {F : F32} where
  unfoldable pub write_input : BitWriter → MoveInput F → BitWriter
  write_input w input =
      let axis = input_axis_quantizer F in
      let w1 = write_u32 w input.sequence in
      let w2 = write_bits w1 (Quantizer.encode axis input.move_x) axis.bits in
      let w3 = write_bits w2 (Quantizer.encode axis input.move_y) axis.bits in
      write_bool w3 input.sprint

  unfoldable pub write_inputs : BitWriter → List (MoveInput F) → BitWriter
  write_inputs w [] = w
  write_inputs w (input ∷ inputs) = write_inputs (write_input w input) inputs

  unfoldable pub write_input_packet : BitWriter → InputPacket F → BitWriter
  write_input_packet w packet =
      let count = min (length packet.inputs) max_inputs_per_packet in
      let w1 = write_u32 (write_u8 w input_channel) packet.client_tick in
      let w2 = write_u32 w1 packet.acked_snapshot_tick in
      write_inputs (write_ranged w2 count 0 max_inputs_per_packet count-IsRange)
        (take count packet.inputs)

  unfoldable pub encode_input_packet : InputPacket F → ℕ → Option (List ℕ)
  encode_input_packet packet capacity = packet_of (write_input_packet (new_writer capacity) packet)

  -- The tick of an input is not on the wire, and stays 0.
  unfoldable pub read_input : BitReader → MoveInput F × BitReader
  read_input r =
      let axis = input_axis_quantizer F in
      let (sequence, r1) = read_u32 r in
      let (x, r2) = read_bits r1 axis.bits in
      let (y, r3) = read_bits r2 axis.bits in
      let (sprint, r4) = read_bool r3 in
      (
        record {
          sequence = sequence;
          tick = 0;
          move_x = Quantizer.decode axis x;
          move_y = Quantizer.decode axis y;
          sprint = sprint;
        },
        r4,
      )

  unfoldable pub read_inputs : ℕ → BitReader → List (MoveInput F) × BitReader
  read_inputs zero r = ([], r)
  read_inputs (suc left) r =
      let (input, r1) = read_input r in let (rest, r2) = read_inputs left r1 in (input ∷ rest, r2)

  unfoldable pub decode_input_packet : List ℕ → Option (InputPacket F)
  decode_input_packet bytes =
      let (channel, r1) = read_u8 (new_reader bytes) in
      let (client_tick, r2) = read_u32 r1 in
      let (acked_snapshot_tick, r3) = read_u32 r2 in
      let (count, r4) = read_ranged r3 0 max_inputs_per_packet count-IsRange in
      let (inputs, r5) = read_inputs count r4 in
      if not (channel == input_channel)
      then none
      else if r4.overflow || leb 0x8000_0000 count
      then none
      else if r5.overflow
      then none
      else some (record {
        client_tick = client_tick;
        acked_snapshot_tick = acked_snapshot_tick;
        inputs = inputs;
      })
