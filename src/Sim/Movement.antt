-- ===== src/Sim/Movement.antt =====
-- src/sim/movement.h: one player's input and its movement in one tick.
use morton.Base.{ℕ, Bool, if◌then◌else◌}
use morton.Core.Float.{F32}
use morton.Core.Vector.{Vec2, plus, times, length_sq, clamped, clampf}
use morton.Proto.Quantizer.{Quantizer, snap}

pub record WorldParams (F : F32) : Type 0 where
  pub size : F.Carrier
  pub acceleration : F.Carrier
  pub max_speed : F.Carrier
  pub friction : F.Carrier
  pub player_radius : F.Carrier
  pub tick_rate : ℕ

pub record MoveInput (F : F32) : Type 0 where
  pub sequence : ℕ
  pub tick : ℕ
  pub move_x : F.Carrier
  pub move_y : F.Carrier
  pub sprint : Bool

pub record MoveState (F : F32) : Type 0 where
  pub position : Vec2 F
  pub velocity : Vec2 F

module _ (F : F32) where
  open F use {neg, decimal}

  abbrev pub input_axis_quantizer : Quantizer F
  input_axis_quantizer = record { min = neg (decimal 1 0); max = decimal 1 0; bits = 8 }

  -- A component of the position and of the velocity, held inside the walls.
  unfoldable pub bounce : F.Carrier → F.Carrier → F.Carrier → F.Carrier → F.Carrier × F.Carrier
  bounce low high position velocity =
      let zero = decimal 0 0 in
      if F.lt position low
      then (low, if F.lt velocity zero then zero else velocity)
      else if F.lt high position
      then (high, if F.lt zero velocity then zero else velocity)
      else (position, velocity)

module _ {F : F32} where
  open F use {add, sub, mul, div, neg, sqrt, lt, of_u64, decimal}

  unfoldable pub tick_dt : WorldParams F → F.Carrier
  tick_dt params = div (decimal 1 0) (of_u64 params.tick_rate)

  unfoldable pub quantize_input : MoveInput F → MoveInput F
  quantize_input input =
      let low = neg (decimal 1 0) in
      let high = decimal 1 0 in
      record input {
        move_x = snap (input_axis_quantizer F) (clampf F input.move_x low high);
        move_y = snap (input_axis_quantizer F) (clampf F input.move_y low high);
      }

  -- The velocity after the input, friction and the limit of speed.
  unfoldable pub step_velocity : Vec2 F → MoveInput F → WorldParams F → F.Carrier → Vec2 F
  step_velocity velocity input params dt =
      let one = decimal 1 0 in
      let raw : Vec2 F = record { x = input.move_x; y = input.move_y } in
      let magnitude_sq = length_sq raw in
      let direction =
        (if lt one magnitude_sq then times raw (div one (sqrt magnitude_sq)) else raw) in
      let acceleration = mul params.acceleration (if input.sprint then decimal 16 1 else one) in
      let max_speed = mul params.max_speed (if input.sprint then decimal 15 1 else one) in
      let damping = div one (add one (mul params.friction dt)) in
      clamped (times (plus velocity (times direction (mul acceleration dt))) damping) max_speed

  unfoldable pub step_movement : MoveState F → MoveInput F → WorldParams F → F.Carrier → MoveState F
  step_movement state input params dt =
      let velocity = step_velocity state.velocity input params dt in
      let position = plus state.position (times velocity dt) in
      let low = params.player_radius in
      let high = sub params.size params.player_radius in
      let (px, vx) = bounce F low high position.x velocity.x in
      let (py, vy) = bounce F low high position.y velocity.y in
      record { position = record { x = px; y = py }; velocity = record { x = vx; y = vy } }
