-- ===== src/Sim/World/Inputs.antt =====
-- The inputs of one player in `World` of src/sim/world.cpp: `queue_input`, and what `apply_inputs`
-- takes from the queue.
use mathlib.Core.Bool.{true≢false}
use morton.Base.{
  ℕ, suc, ◌≤◌, ◌<◌, ◌≡◌, refl, sym, ap, Bool, true, false, not, ◌&&◌, List, [], ◌∷◌, ◌++◌, inl, inr,
  ◌⊎◌, ltb, leb, ◌==◌, length, length-append, drop, Bool-cases, arith,
}
use morton.Core.Float.{F32}
use morton.Sim.Movement.{MoveInput, quantize_input}
use morton.Sim.World.{PlayerSlot, new_slot, queue}
use morton.Sim.World.Tick.{next_input}

-- The number of an input follows the one before it: it is greater, or both are 0, which a new
-- slot takes any number of times.
abbrev pub Follows : ℕ → ℕ → Type 0
Follows before number = (before < number) ⊎ ((before ≡ 0) × (number ≡ 0))

module _ {F : F32} where
  -- Inputs in the order of their numbers, above `low` and up to `high`.
  abbrev pub IsQueue : ℕ → ℕ → List (MoveInput F) → Type 0
  IsQueue low high [] = low ≤ high
  IsQueue low high (input ∷ rest) = Follows low input.sequence × IsQueue input.sequence high rest

  -- At most 32 inputs wait, in order, all after the last that was applied and none after the
  -- newest that was received.
  pub record IsSlot (slot : PlayerSlot F) : Type 0 where
    pub bounded : length slot.pending ≤ 32
    pub ordered : IsQueue slot.last_applied_sequence slot.highest_received_sequence slot.pending

  pub new_slot-IsSlot :
      (entity client sequence : ℕ) → IsSlot (new_slot {F = F} entity client sequence)
  new_slot-IsSlot entity client sequence = record { bounded = omega arith; ordered = omega arith }

  IsQueue-weaken :
      (low low' high : ℕ) (inputs : List (MoveInput F))
      → low' ≤ low
      → IsQueue low high inputs
      → IsQueue low' high inputs
  IsQueue-weaken low low' high [] h v = omega arith
  IsQueue-weaken low low' high (input ∷ rest) h v = (ground (arith, v.0), v.1)

  IsQueue-drop :
      (low high : ℕ) (inputs : List (MoveInput F))
      → IsQueue low high inputs
      → IsQueue low high (drop 1 inputs)
  IsQueue-drop low high [] v = v
  IsQueue-drop low high (input ∷ rest) v =
      IsQueue-weaken input.sequence low high rest (ground (arith, v.0)) v.1

  IsQueue-append :
      (low high : ℕ) (inputs : List (MoveInput F)) (input : MoveInput F)
      → Follows high input.sequence
      → IsQueue low high inputs
      → IsQueue low input.sequence (inputs ++ (input ∷ []))
  IsQueue-append low high [] input h v = (ground (arith, h, v), omega arith)
  IsQueue-append low high (first ∷ rest) input h v =
      (v.0, IsQueue-append first.sequence high rest input h v.1)

  length-drop_one : (inputs : List (MoveInput F)) → length (drop 1 inputs) ≤ length inputs
  length-drop_one [] = omega arith
  length-drop_one (input ∷ rest) = omega arith

  drop_one_short : (inputs : List (MoveInput F)) → length inputs ≤ 32 → length (drop 1 inputs) ≤ 31
  drop_one_short [] h = omega arith
  drop_one_short (input ∷ rest) h = omega (arith, h)

  -- From a well-formed slot, as every new slot is, whatever input is queued leaves at most 32
  -- inputs waiting, numbered after the last applied and up to the newest received, in ascending
  -- order: strictly, but that the number 0 can stand again after 0.
  pub queue-IsSlot :
      (slot : PlayerSlot F) (input : MoveInput F) → IsSlot slot → IsSlot (queue slot input)
  unfolding queue quantize_input
  queue-IsSlot slot input v =
      let high : ℕ = slot.highest_received_sequence in
      elim (Bool-cases (leb input.sequence high && not (high == 0))) [
        | inl stale ↦ rw stale (record { bounded = v.bounded; ordered = v.ordered })
        | inr fresh ↦
            let newer : Follows high input.sequence = ground (arith, fresh) in
            let quantized : MoveInput F = quantize_input input in
            elim (Bool-cases (leb 32 (length slot.pending))) [
              | inl full ↦
                  rw (fresh, full)
                    (record {
                      bounded = omega (
                        arith,
                        length-append (drop 1 slot.pending) (quantized ∷ []),
                        drop_one_short slot.pending v.bounded,
                      );
                      ordered =
                          IsQueue-append slot.last_applied_sequence high (drop 1 slot.pending)
                            quantized newer
                            (IsQueue-drop slot.last_applied_sequence high slot.pending v.ordered);
                    })
              | inr room ↦
                  let short : length slot.pending < 32 = ground arith in
                  rw (fresh, room)
                    (record {
                      bounded = omega (arith, length-append slot.pending (quantized ∷ []), short);
                      ordered =
                          IsQueue-append slot.last_applied_sequence high slot.pending quantized
                            newer v.ordered;
                    })
            ]
      ]

  pending_cases :
      (inputs : List (MoveInput F))
      → (inputs ≡ [])
        ⊎ ((input : MoveInput F) × (rest : List (MoveInput F)) × (inputs ≡ input ∷ rest))
  pending_cases [] = inl refl
  pending_cases (input ∷ rest) = inr (input, rest, refl)

  -- What a tick makes of a slot: well formed again, the number that the client is told never goes
  -- back, the slot stays as it is where no input waits, and where one waits the first leaves the
  -- queue and its number is the one told, a greater one unless it is 0.
  pub record Advances (slot : PlayerSlot F) (input : MoveInput F) (slot' : PlayerSlot F)
      (queued : Bool) : Type 0 where
    pub slot_valid : IsSlot slot'
    pub kept_high : slot'.highest_received_sequence ≡ slot.highest_received_sequence
    pub forward : slot.last_applied_sequence ≤ slot'.last_applied_sequence
    pub waiting : queued ≡ ltb 0 (length slot.pending)
    pub idle : queued ≡ false → slot' ≡ slot
    pub taken :
        queued ≡ true
        → (slot.pending ≡ input ∷ slot'.pending) × (slot'.last_applied_sequence ≡ input.sequence)
    pub strictly :
        queued ≡ true
        → (slot.last_applied_sequence < slot'.last_applied_sequence)
          ⊎ (slot'.last_applied_sequence ≡ 0)

  -- From a well-formed slot, a tick leaves a well-formed slot with the same newest number, and
  -- never takes the applied number back. Where no input waits it leaves the slot as it was; where
  -- one waits it takes the first from the queue and its number becomes the applied one, which is
  -- greater than the one before, or 0.
  pub next_input-Advances :
      (tick : ℕ) (slot : PlayerSlot F)
      → IsSlot slot
      → Advances slot (next_input tick slot).0 (next_input tick slot).1 (next_input tick slot).2
  unfolding next_input
  next_input-Advances tick slot v = elim (pending_cases slot.pending) [
    | inl none_waits ↦
        rw (next_input, none_waits)
          (record {
            slot_valid = v;
            kept_high = refl;
            forward = omega arith;
            waiting = refl;
            idle = λ e. ap (λ inputs. record slot { pending = inputs }) none_waits;
            taken = λ e. absurd (true≢false (sym e));
            strictly = λ e. absurd (true≢false (sym e));
          })
    | inr (input, rest, waits) ↦
        let ordered : IsQueue slot.last_applied_sequence slot.highest_received_sequence
            (input ∷ rest) =
          rw waits at v.ordered in
        let counted : suc (length rest) ≤ 32 = rw waits at v.bounded in
        rw (next_input, waits)
          (record {
            slot_valid = record { bounded = omega (arith, counted); ordered = ordered.1 };
            kept_high = refl;
            forward = ground (arith, ordered.0);
            waiting = ground arith;
            idle = λ e. absurd (true≢false e);
            taken = λ e. (refl, refl);
            strictly = λ e. ground (arith, ordered.0);
          })
  ]
