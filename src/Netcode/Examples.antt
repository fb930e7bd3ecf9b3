-- ===== src/Netcode/Examples.antt =====
-- Tests of packages/netcode, with poses that are numbers.
use vr_poker.Prelude.{ℕ, ◌+◌, ◌-◌, ◌*◌, ◌/◌, ◌≡◌, refl, none, some, Option, List, [], ◌∷◌}
use vr_poker.Prelude.Int.{pos, ◌-ℤ◌}
use vr_poker.Prelude.Sort.{sort_by}
use vr_poker.Server.Room.State.{PresencePose, ServerMessage, pong, presence}
use vr_poker.Netcode.Pose.{PoseInterpolator, push, sample}
use vr_poker.Netcode.Buffer.{Shows, sample-Shows}
use vr_poker.Netcode.Client.{TableClient, receive}
use vr_poker.Netcode.Received.{IsNewest, receive-IsNewest}

-- the interpolation of numbers that grow
abbrev lerp : ℕ → ℕ → ℕ → ℕ → ℕ
lerp a b t n = a + (b - a) * t / n

abbrev at : ℕ → ℕ → PresencePose ℕ
at time pose = record { player_id = 8; t = time; pose = pose }

-- three samples, of which the second arrives last
abbrev buffer : PoseInterpolator ℕ
buffer = push (at 20 200) (
    push (at 30 300) (push (at 10 100) (record { delay_ms = 100; max_samples = 32; samples = [] })))

half_way : sample lerp (pos 125) buffer ≡ some (at 25 250)
unfolding push sort_by sample ◌-ℤ◌
half_way = refl

sample-Shows_example : Shows lerp (pos 125 -ℤ pos 100) buffer.samples (sample lerp (pos 125) buffer)
unfolding push
sample-Shows_example = sample-Shows lerp (pos 125) buffer

abbrev client : TableClient ℕ
client = record {
  player_id = 7;
  presence_delay_ms = 100;
  seq = 4;
  snapshot = none;
  remote_poses = [];
  server_time_offset_ms = pos 0;
  notices = [];
}

abbrev messages : List (ℕ × Option (ServerMessage ℕ))
messages = (5, some (pong 6)) ∷ (6, none) ∷ (7, some (presence 5 0 ((8, at 5 50) ∷ []))) ∷ []

receive-IsNewest_example : IsNewest client messages (receive lerp messages client)
receive-IsNewest_example = receive-IsNewest lerp messages client
