-- ===== src/Server/Stream/Relay.antt =====
-- What the picture server promises its client: a relay with room for one frame. It accepts a frame
-- when it has none, and delivers the one that it has.
use edaf55_project.Base.{◌≡◌, List, [], ◌∷◌, ◌++◌, ℕ, Option, none, some}
use edaf55_project.FakeCapture.{MediaFrame}
use edaf55_project.Server.Frames.Delivery.{packet_of}

pub record Relay : Type 0 where
  pub held : Option MediaFrame
  pub delivered : List MediaFrame

pub data RelayStep (r : Relay) : Relay → Type 0 where
  accept : (f : MediaFrame) → r.held ≡ none → RelayStep r (record r { held = some f })
  deliver :
      (f : MediaFrame)
      → r.held ≡ some f
      → RelayStep r (record { held = none; delivered = r.delivered ++ (f ∷ []) })

pub data RelayReach (r : Relay) : Relay → Type 0 where
  at_start : RelayReach r r
  and_then : {s t : Relay} → RelayReach r s → RelayStep s t → RelayReach r t

abbrev pub empty_relay : Relay
empty_relay = record { held = none; delivered = [] }

-- All frames that the relay has accepted.
abbrev pub held_list : Option MediaFrame → List MediaFrame
held_list none = []
held_list (some f) = f ∷ []

abbrev pub accepted : Relay → List MediaFrame
accepted r = r.delivered ++ held_list r.held

-- The bytes of frames, packet behind packet.
abbrev pub packets : List MediaFrame → List ℕ
packets [] = []
packets (f ∷ fs) = packet_of f ++ packets fs
