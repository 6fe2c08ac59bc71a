-- ===== src/Tracks.antt =====
-- apps/api/src/tracks: track.entity.ts, and of tracks.service.ts and tracks.repository.ts what the
-- analysis calls. The map of a track is an interface: its service waits for an outbound fetch.
use kab23_motorsport_telemet.Prelude.{
  ℕ, String, Bool, any, ◌||◌, List, Option, none, some, ◌==◌, if◌then◌else◌,
}
use kab23_motorsport_telemet.Repository.{Repository}
use kab23_motorsport_telemet.Analysis.Points.{Gate}
use kab23_motorsport_telemet.Analysis.Placing.{Place}
use kab23_motorsport_telemet.Analysis.SectorGates.{DerivedSectorGates}

-- `String.prototype.trim` and Postgres's `lower`.
pub record Spelling : Type 0 where
  pub trim : String → String
  pub lower : String → String

pub record StoredGates (F : Type 0) : Type 0 where
  pub derived : DerivedSectorGates F
  pub derived_at : ℕ

pub record Track (F : Type 0) : Type 0 where
  pub id : String
  pub slug : String
  pub name : String
  pub country : String
  pub centre_lat : F
  pub centre_lon : F
  pub sf_lat1 : F
  pub sf_lon1 : F
  pub sf_lat2 : F
  pub sf_lon2 : F
  pub device_track_ids : List String
  pub sector_gates : Option (List (Gate F))
  pub derived_sector_gates : Option (StoredGates F)
  pub updated_at : Option ℕ

-- What `readyCircuit` answers of a map.
pub record ReadyCircuit (F : Type 0) : Type 0 where
  pub ring : List (Place F)
  pub centreline_length_m : Option F

module _ {F : Type 0} where
  abbrev pub track_key : Track F → String
  track_key t = t.id

  abbrev pub same_slug : Track F → Track F → Bool
  same_slug a b = a.slug == b.slug

  module _ (text : Spelling) (tracks : Repository (Track F) track_key same_slug) where
    denotes : String → Track F → Bool
    denotes name t =
        text.lower t.slug == text.lower name || any (λ known. known == name) t.device_track_ids

    unfoldable pub find_by_device_track : String → tracks.Table → Option (Track F)
    unfolding denotes
    find_by_device_track name t = tracks.find_one (denotes name) t

    unfoldable pub resolve : String → tracks.Table → Option (Track F)
    unfolding find_by_device_track
    resolve name t = if text.trim name == "" then none else find_by_device_track (text.trim name) t

  module _ (tracks : Repository (Track F) track_key same_slug) where
    -- `update` looks at no count. TypeORM also stamps the row, here at the same instant.
    unfoldable pub set_derived_sector_gates : String → StoredGates F → tracks.Table → tracks.Table
    set_derived_sector_gates track_id gates t =
        (tracks.update (λ r. r.id == track_id) (λ r. record r { derived_sector_gates = some gates })
          t).1
