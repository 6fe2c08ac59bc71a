-- ===== src/Live/Delivery.antt =====
-- Which messages `dispatch` hands on, and for which car.
use kab23_motorsport_telemet.Prelude.{
  ℕ, String, ◌≡◌, refl, Bool, Option, none, some, arith, Option-cases, inl, inr,
}
use kab23_motorsport_telemet.Wire.Channels.{
  ParsedLiveChannel, parse_live_channel, channel_of, parse_live_channel_only,
}
use kab23_motorsport_telemet.Ingest.Messages.{live_frame_schema_version}
use kab23_motorsport_telemet.Live.{
  BusMessage, parse_live_message, known_version, deliver, dispatch_message,
}

module _ {A : Type 0} (decode : String → Option A) (version : A → Option ℕ) where
  known_version-some :
      (payload p : A) (v : Option ℕ)
      → version payload ≡ v
      → known_version decode version payload v ≡ some p
      → (payload ≡ p) × (version payload ≡ some live_frame_schema_version)
  unfolding known_version
  known_version-some payload p none e known = cc
  known_version-some payload p (some v) e known = ground arith

  parsed-some :
      (raw : String) (p : A)
      → parse_live_message decode version raw ≡ some p
      → (decode raw ≡ some p) × (version p ≡ some live_frame_schema_version)
  unfolding parse_live_message
  parsed-some raw p known = elim (Option-cases (decode raw)) [
    | inl broken ↦ absurd (ground arith)
    | inr (payload, decoded) ↦ ground (arith, known_version-some payload p (version payload) refl)
  ]

  deliver-some :
      (parsed : ParsedLiveChannel) (o : Option A) (m : BusMessage decode version)
      → deliver decode version parsed o ≡ some m
      → (parsed.car_id ≡ m.car_id) × (parsed.kind ≡ m.kind) × (o ≡ some m.payload)
  unfolding deliver
  deliver-some parsed none m e = cc
  deliver-some parsed (some payload) m e = ground arith

  -- A message that is handed on came by the channel of its car and kind, its payload is what the
  -- body decodes to, and this has the version that this build knows.
  pub dispatch_message-channel :
      (installed : Bool) (channel raw : String) (m : BusMessage decode version)
      → dispatch_message decode version installed channel raw ≡ some m
      → (channel ≡ channel_of m.car_id m.kind)
        × (decode raw ≡ some m.payload)
        × (version m.payload ≡ some live_frame_schema_version)
  unfolding dispatch_message
  dispatch_message-channel installed channel raw m handed =
      elim (Option-cases (parse_live_channel channel)) [
        | inl other ↦ absurd (ground arith)
        | inr (parsed, read) ↦ ground (
          arith,
          parse_live_channel_only channel parsed read,
          deliver-some parsed (parse_live_message decode version raw) m,
          parsed-some raw m.payload,
        )
      ]
