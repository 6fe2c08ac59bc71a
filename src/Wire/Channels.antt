-- ===== src/Wire/Channels.antt =====
-- libs/common/src/live-telemetry/live-telemetry-channels.ts: the Redis channels of one car, and how
-- a subscriber reads a channel name back.
use text.Mathlib.TextLemmas.{append_assoc, cons-append}
use kab23_motorsport_telemet.Prelude.{
  ℕ, String, ◌≡◌, ◌≢◌, refl, sym, ap, ◌∙◌, not, ◌||◌, List, [], ◌∷◌, Option, none, some, arith,
  ◌==◌, eq_iff, if◌then◌else◌, ◌⊎◌, inl, inr,
}
use kab23_motorsport_telemet.Wire.Segments.{
  ◌⧺◌, split, Without, join, split-Without, split-append, join-split, literal_sep,
}

unfoldable pub live_car_channel : String → String
live_car_channel car_id = "live:car:" ⧺ car_id

unfoldable pub live_car_events_channel : String → String
live_car_events_channel car_id = "live:car:" ⧺ (car_id ⧺ ":events")

unfoldable pub lkv_car_key : String → String
lkv_car_key car_id = "lkv:car:" ⧺ car_id

-- Seconds; the longest time that a last-known value survives.
abbrev pub lkv_ttl_seconds : ℕ
lkv_ttl_seconds = 300

-- Milliseconds; the greatest age at which a cached frame seeds a joining viewer.
abbrev pub lkv_max_seed_age_ms : ℕ
lkv_max_seed_age_ms = 15000

pub data LiveChannelKind : Type 0 where
  frame event : LiveChannelKind

pub record ParsedLiveChannel : Type 0 where
  pub car_id : String
  pub kind : LiveChannelKind

-- What follows the car's id in the channel name.
kind_segment : String → List String → Option ParsedLiveChannel
kind_segment car_id [] = some (record { car_id = car_id; kind = frame })
kind_segment car_id (e ∷ []) =
    if e == "events" then some (record { car_id = car_id; kind = event }) else none
kind_segment car_id (e ∷ f ∷ rest) = none

channel_segments : List String → Option ParsedLiveChannel
unfolding kind_segment
channel_segments (a ∷ b ∷ c ∷ rest) =
    if not (a == "live") || not (b == "car") || c == "" then none else kind_segment c rest
channel_segments _ = none

unfoldable pub parse_live_channel : String → Option ParsedLiveChannel
unfolding channel_segments split
parse_live_channel channel = channel_segments (split b':' channel)

prefix_lem : (rest : String) → "live:car:" ⧺ rest ≡ join ":" ("live" ∷ "car" ∷ rest ∷ [])
unfolding join
prefix_lem rest =
    literal_sep ":" "live:car" rest
    ∙ append_assoc "live" ":car" (Prim.Native.String.◌∷◌ ":" rest)
    ∙ ap (◌⧺◌ "live") (cons-append ":" "car" (Prim.Native.String.◌∷◌ ":" rest))

split-prefix : (rest : String) → split b':' ("live:car:" ⧺ rest) ≡ "live" ∷ "car" ∷ split b':' rest
unfolding join
split-prefix rest =
    ap (split b':') (prefix_lem rest)
    ∙ split-append ":" "live" ("car" ⧺ Prim.Native.String.◌∷◌ ":" rest) (omega arith)
    ∙ ap (◌∷◌ "live") (split-append ":" "car" rest (omega arith))

-- The names of a car's two channels are read back as the car and the kind, if the car's id is
-- not empty and has no colon in it.
pub parse-live_car_channels :
    (car_id : String)
    → car_id ≢ ""
    → Without b':' car_id
    → (parse_live_channel (live_car_channel car_id)
        ≡ some (record { car_id = car_id; kind = frame }))
      × (parse_live_channel (live_car_events_channel car_id)
          ≡ some (record { car_id = car_id; kind = event }))
unfolding parse_live_channel live_car_channel live_car_events_channel channel_segments
parse-live_car_channels car_id named plain = (
  rw (split-prefix car_id, split-Without b':' car_id plain) (ground (arith, eq_iff car_id "")),
  rw (split-prefix (car_id ⧺ ":events"), split-append ":" car_id "events" plain)
      (ground (arith, eq_iff car_id "")),
)

kind_shape :
    (c : String) (rest : List String) (p : ParsedLiveChannel)
    → kind_segment c rest ≡ some p
    → (p.car_id ≡ c)
      × (((rest ≡ []) × (p.kind ≡ frame)) ⊎ ((rest ≡ "events" ∷ []) × (p.kind ≡ event)))
unfolding kind_segment
kind_shape c [] p h = (ground arith, inl (refl, ground arith))
kind_shape c (e ∷ []) p h = (ground arith, inr (ground (arith, eq_iff e "events"), ground arith))
kind_shape c (e ∷ f ∷ rest) p h = cc

segments_shape :
    (ss : List String) (p : ParsedLiveChannel)
    → channel_segments ss ≡ some p
    → (rest : List String) × (ss ≡ "live" ∷ "car" ∷ p.car_id ∷ rest)
      × (((rest ≡ []) × (p.kind ≡ frame)) ⊎ ((rest ≡ "events" ∷ []) × (p.kind ≡ event)))
unfolding channel_segments
segments_shape (a ∷ b ∷ c ∷ rest) p h =
    let (same, kinds) = kind_shape c rest p (unfold kind_segment in ground arith) in
    (rest, ground (arith, eq_iff a "live", eq_iff b "car"), kinds)
segments_shape _ p h = cc

-- The channel that a parsed name stands for.
abbrev pub channel_of : String → LiveChannelKind → String
channel_of car_id frame = live_car_channel car_id
channel_of car_id event = live_car_events_channel car_id

channel_shape :
    (channel : String) (p : ParsedLiveChannel) (rest : List String)
    → channel ≡ join ":" ("live" ∷ "car" ∷ p.car_id ∷ rest)
    → ((rest ≡ []) × (p.kind ≡ frame)) ⊎ ((rest ≡ "events" ∷ []) × (p.kind ≡ event))
    → channel ≡ channel_of p.car_id p.kind
unfolding live_car_channel live_car_events_channel join
channel_shape channel p rest e (inl (none_left, kind)) =
    rw (kind, e, none_left) (sym (prefix_lem p.car_id))
channel_shape channel p rest e (inr (left, kind)) =
    rw (kind, e, left) (sym (prefix_lem (p.car_id ⧺ ":events")))

-- A name that is read as a channel is the one that the publisher writes for that car and kind.
pub parse_live_channel_only :
    (channel : String) (p : ParsedLiveChannel)
    → parse_live_channel channel ≡ some p
    → channel ≡ channel_of p.car_id p.kind
unfolding parse_live_channel
parse_live_channel_only channel p h =
    let (rest, shape, kinds) = segments_shape (split b':' channel) p h in
    channel_shape channel p rest (sym (join-split ":" channel) ∙ ap (join ":") shape) kinds
