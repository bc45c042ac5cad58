-- ===== src/Exchange/Filling/Wires.antt =====
-- The sensors' wires end after the joints.
use Prim.Native.String.{◌++◌ as ◌+str◌}
use mc_mjlab.Prelude.{
  ℕ, ◌+◌, ◌<◌, String, Option, none, some, List, [], ◌∷◌, ◌++◌, arith, length, str_eq, if-rule,
}
use mc_mjlab.Exchange.Simulation.{
  InputLayout, body_sensors_offset, force_sensors_offset, floating_base, sensor_stride, Wires,
  route, route_body, route_bodies, route_forces, resolve_sensor_routes, otherwise,
}
use mc_mjlab.Exchange.Filling.Slots.{NotIn}

NotIn-append : (c : ℕ) (xs ys : List ℕ) → NotIn c xs → NotIn c ys → NotIn c (xs ++ ys)
NotIn-append c [] ys h k = k
NotIn-append c (x ∷ xs) ys (ne, h) k = (ne, NotIn-append c xs ys h k)

-- no wire ends in a joint's column
module _ (sensor_adr : String → Option ℕ) (c : ℕ) where
  route-NotIn :
      (source : Option ℕ) (slot : ℕ) (w : Wires)
      → c < slot
      → NotIn c w.destinations
      → NotIn c (route source slot w).destinations
  unfolding route
  route-NotIn none slot w e h = h
  route-NotIn (some source) slot w e h =
      NotIn-append c w.destinations _ h
        (λ q. omega (arith, q), (λ q. omega (arith, q), (λ q. omega (arith, q), tt)))

  -- a sensor's two channels
  route_both-NotIn :
      (first second : Option ℕ) (slot : ℕ) (w : Wires)
      → c < slot
      → NotIn c w.destinations
      → NotIn c (route second (slot + 3) (route first slot w)).destinations
  route_both-NotIn first second slot w e h =
      route-NotIn second (slot + 3) (route first slot w) (omega arith)
        (route-NotIn first slot w e h)

  route_bodies-NotIn :
      (names : List String) (slot : ℕ) (w : Wires)
      → c < slot
      → NotIn c w.destinations
      → NotIn c (route_bodies sensor_adr names slot w).destinations
  unfolding route_bodies route_body
  route_bodies-NotIn [] slot w e h = h
  route_bodies-NotIn (name ∷ names) slot w e h =
      route_bodies-NotIn names (slot + sensor_stride) _ (omega arith) (
        if-rule (λ (v : Wires). NotIn c v.destinations) (str_eq name floating_base) (λ _. h)
          (λ _.
            route_both-NotIn (otherwise (sensor_adr (name +str "_gyro")) (sensor_adr "imu_gyro"))
              (otherwise (sensor_adr (name +str "_accelerometer")) (sensor_adr "imu_accelerometer"))
              slot w e h))

  route_forces-NotIn :
      (names : List String) (slot : ℕ) (w : Wires)
      → c < slot
      → NotIn c w.destinations
      → NotIn c (route_forces sensor_adr names slot w).destinations
  unfolding route_forces
  route_forces-NotIn [] slot w e h = h
  route_forces-NotIn (name ∷ names) slot w e h =
      route_forces-NotIn names (slot + sensor_stride) _ (omega arith) (
        route_both-NotIn (sensor_adr (name +str "_fsensor")) (sensor_adr (name +str "_tsensor"))
          slot w e h)

  pub resolve_sensor_routes-NotIn :
      (l : InputLayout)
      → c < length l.joint_order
      → NotIn c (resolve_sensor_routes sensor_adr l).destinations
  unfolding resolve_sensor_routes
  resolve_sensor_routes-NotIn l e =
      route_forces-NotIn l.force_sensors (force_sensors_offset l) _ (omega arith)
        (route_bodies-NotIn l.body_sensors (body_sensors_offset l) _ (omega arith) tt)
