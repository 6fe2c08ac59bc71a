-- ===== src/Cars.antt =====
-- The cars of the API and their accounts at the broker (apps/api/src/cars): car.entity.ts,
-- cars.repository.ts, and what the module rests on.
pub mod Plumbing
pub mod Admin
pub mod Service
pub mod Examples
use kab23_motorsport_telemet.Prelude.{
  ℕ, String, ◌≡◌, ◌⊎◌, Bool, List, Option, none, some, Result, any, count, rewrite, ◌==◌,
  if◌then◌else◌, get_or,
}
use kab23_motorsport_telemet.Repository.{Repository}
use kab23_motorsport_telemet.Repository.Abstract.{HttpError}
use kab23_motorsport_telemet.Teams.{Platform, Db}
use kab23_motorsport_telemet.Cars.Plumbing.{DynsecError}
use kab23_motorsport_telemet.Cars.Admin.{Broker}

pub record Car : Type 0 where
  pub id : String
  pub name : String
  pub make : Option String
  pub model : Option String
  pub device_id : String
  pub mqtt_provisioned_at : Option ℕ
  pub owner_id : String
  pub team_id : Option String

pub record CreateCarDto : Type 0 where
  pub name : String
  pub make : Option String
  pub model : Option String
  pub device_id : String
  pub team_id : Option String

-- A field that is not in the request is `none`; a team that is `null` is `some none`.
pub record UpdateCarDto : Type 0 where
  pub name : Option String
  pub make : Option String
  pub model : Option String
  pub device_id : Option String
  pub team_id : Option (Option String)

abbrev pub car_key : Car → String
car_key c = c.id

-- `@Column({ unique: true }) deviceId`
abbrev pub same_device : Car → Car → Bool
same_device a b = a.device_id == b.device_id

-- What an update under a unique index comes to: the number of affected rows, or an error.
pub data Updated (Table : Type 0) : Type 0 where
  updated : ℕ → Table → Updated Table
  collided : Updated Table
  not_updated : Updated Table

pub record Garage : Type 1 where
  pub platform : Platform
  pub cars : Repository Car car_key same_device
  pub try_update : (Car → Bool) → (Car → Car) → cars.Table → Updated cars.Table
  pub broker : Broker

pub record Fleet (env : Garage) : Type 0 where
  pub db : Db env.platform
  pub cars : env.cars.Table
  pub world : env.broker.World

pub data CarsError : Type 0 where
  http : HttpError → CarsError
  dynsec : DynsecError → CarsError
