-- ===== src/Proto/Messages/Inputs/Starved.antt =====
-- Inputs of src/proto/messages.h in the queue of src/sim/world.cpp: the tick that `apply_inputs`
-- compares is not on the wire.
use morton.Base.{
  ℕ, zero, suc, ◌^◌, ◌≤◌, ◌<◌, ◌≡◌, refl, Bool, true, false, not, ◌&&◌, ◌||◌, List, [], ◌∷◌, none,
  some, leb, ◌==◌, if◌then◌else◌, get_or, All, sub32, arith,
}
use mathlib.Core.Path.{subst}
use mathlib.Core.Option.{none-ne-some, some-injective}
use morton.Core.Float.{F32}
use morton.Proto.Bitstream.Reader.{BitReader, new_reader, read_u8, read_u32}
use morton.Proto.Bitstream.Ranged.{read_ranged}
use morton.Proto.Messages.Inputs.{
  InputPacket, read_input, read_inputs, decode_input_packet, input_channel, max_inputs_per_packet,
  count-IsRange,
}
use morton.Sim.Movement.{MoveInput, quantize_input}
use morton.Sim.World.{PlayerSlot, no_input, queue}
use morton.Sim.World.Tick.{next_input}

reached {ℓ} :
    {A : Type ℓ} (a b c : Bool) (x y : A)
    → (if a then none else if b then none else if c then none else some x) ≡ some y
    → x ≡ y
reached true b c x y e = absurd (none-ne-some y e)
reached false true c x y e = absurd (none-ne-some y e)
reached false false true x y e = absurd (none-ne-some y e)
reached false false false x y e = some-injective x y e

read_inputs-tick :
    (F : F32) (n : ℕ) (r : BitReader)
    → All (λ (i : MoveInput F). i.tick ≡ 0) (read_inputs {F = F} n r).0
unfolding read_inputs read_input
read_inputs-tick F zero r = tt
read_inputs-tick F (suc n) r = (refl, read_inputs-tick F n (read_input {F = F} r).1)

tick_at :
    (F : F32) (inputs : List (MoveInput F)) (i : ℕ)
    → All (λ (i : MoveInput F). i.tick ≡ 0) inputs
    → (get_or inputs i (no_input F)).tick ≡ 0
tick_at F [] i h = refl
tick_at F (x ∷ inputs) zero h = h.0
tick_at F (x ∷ inputs) (suc i) h = tick_at F inputs i h.1

module _ {F : F32} where
  decode_input_packet-tick :
      (bytes : List ℕ) (packet : InputPacket F)
      → decode_input_packet bytes ≡ some packet
      → All (λ (i : MoveInput F). i.tick ≡ 0) packet.inputs
  unfolding decode_input_packet
  decode_input_packet-tick bytes packet e =
      let (channel, r1) = read_u8 (new_reader bytes) in
      let (client_tick, r2) = read_u32 r1 in
      let (acked_snapshot_tick, r3) = read_u32 r2 in
      let (count, r4) = read_ranged r3 0 max_inputs_per_packet count-IsRange in
      let (inputs, r5) = read_inputs {F = F} count r4 in
      let got : InputPacket F = record {
        client_tick = client_tick;
        acked_snapshot_tick = acked_snapshot_tick;
        inputs = inputs;
      } in
      let same =
        reached (not (channel == input_channel)) (r4.overflow || leb 0x8000_0000 count) r5.overflow
          got packet e in
      subst (λ (p : InputPacket F). All (λ (i : MoveInput F). i.tick ≡ 0) p.inputs) same
        (read_inputs-tick F count r4)

  queue_fresh :
      (slot : PlayerSlot F) (input : MoveInput F)
      → slot.highest_received_sequence < input.sequence
      → queue (record slot { pending = [] }) input ≡ record slot {
        highest_received_sequence = input.sequence;
        pending = quantize_input input ∷ [];
      }
  unfolding queue
  queue_fresh slot input newer =
      let high : ℕ = slot.highest_received_sequence in
      let fresh : (leb input.sequence high && not (high == 0)) ≡ false = ground (arith, newer) in
      rw fresh refl

  -- When an input that came in a packet is applied at tick 6 or later, and no other input waits,
  -- the next tick applies no movement: what decode_input_packet yields carries the tick 0, so the
  -- last command is not repeated. The input is newer than all that the slot has received.
  pub next_input-starved :
      (bytes : List ℕ) (packet : InputPacket F) (i tick : ℕ) (slot : PlayerSlot F)
      → decode_input_packet bytes ≡ some packet
      → slot.highest_received_sequence < (get_or packet.inputs i (no_input F)).sequence
      → 6 ≤ tick
      → suc tick < 2 ^ 32
      → (next_input
          (suc tick)
          (next_input tick
            (queue (record slot { pending = [] }) (get_or packet.inputs i (no_input F)))).1).0
        ≡ record (no_input F) { sequence = (get_or packet.inputs i (no_input F)).sequence }
  unfolding next_input quantize_input
  next_input-starved bytes packet i tick slot e newer late small =
      let input : MoveInput F = get_or packet.inputs i (no_input F) in
      let zero_tick : input.tick ≡ 0 =
        tick_at F packet.inputs i (decode_input_packet-tick bytes packet e) in
      let gone : leb (sub32 (suc tick) input.tick) 6 ≡ false =
        ground (arith, zero_tick, late, small) in
      rw (queue_fresh slot input newer, gone) refl
