-- ===== src/Netcode/Pose.antt =====
-- packages/netcode/src/pose.ts: `PoseInterpolator`. Times are whole milliseconds.
use vr_poker.Prelude.{
  ℕ, ◌-◌, Bool, ◌&&◌, Option, none, some, List, [], ◌∷◌, ◌++◌, length, drop, ltb, ◌==◌,
  if◌then◌else◌,
}
use vr_poker.Prelude.Sort.{sort_by}
use vr_poker.Prelude.Int.{ℤ, pos, pos_part, ◌-ℤ◌, leb_ℤ}
use vr_poker.Server.Room.State.{PresencePose}

pub record PoseInterpolator (P : Type 0) : Type 0 where
  pub delay_ms : ℕ
  pub max_samples : ℕ
  pub samples : List (PresencePose P)

module _ {P : Type 0} where
  abbrev pub earlier : PresencePose P → PresencePose P → Bool
  earlier a b = ltb a.t b.t

  abbrev pub trimmed : ℕ → List (PresencePose P) → List (PresencePose P)
  trimmed most samples = drop (length samples - most) samples

  unfoldable pub push : PresencePose P → PoseInterpolator P → PoseInterpolator P
  unfolding sort_by
  push sample b = record b {
    samples = trimmed b.max_samples (sort_by earlier (b.samples ++ (sample ∷ [])));
  }

  abbrev pub last_of : PresencePose P → List (PresencePose P) → PresencePose P
  last_of a [] = a
  last_of a (b ∷ rest) = last_of b rest

-- `lerp a b t n` is the pose at the part t / n of the way from `a` to `b`
module _ {P : Type 0} (lerp : P → P → ℕ → ℕ → P) where
  -- `b.t - a.t || 1`
  abbrev pub span : ℕ → ℕ
  span n = if n == 0 then 1 else n

  abbrev pub between : ℤ → PresencePose P → PresencePose P → PresencePose P
  between target a b = record {
    player_id = a.player_id;
    t = pos_part target;
    pose = lerp a.pose b.pose (pos_part target - a.t) (span (b.t - a.t));
  }

  abbrev pub is_between : ℤ → PresencePose P → PresencePose P → Bool
  is_between target a b = leb_ℤ (pos a.t) target && leb_ℤ target (pos b.t)

  -- the loop over the pairs of neighbours, from `a` on; `last` is what follows it
  abbrev pub walk : ℤ → PresencePose P → PresencePose P → List (PresencePose P) → PresencePose P
  walk target last a [] = last
  walk target last a (b ∷ rest) =
      let later = walk target last b rest in
      if is_between target a b then between target a b else later

  abbrev pub sample_of : ℤ → PresencePose P → List (PresencePose P) → PresencePose P
  sample_of target a [] = a
  sample_of target a (b ∷ rest) =
      let last = last_of b rest in
      if leb_ℤ target (pos a.t)
      then a
      else if leb_ℤ (pos last.t) target
      then last
      else walk target last a (b ∷ rest)

  unfoldable pub sample : ℤ → PoseInterpolator P → Option (PresencePose P)
  unfolding ◌-ℤ◌
  sample now b = elim b.samples [
    | [] ↦ none
    | a ∷ rest ↦ some (sample_of (now -ℤ pos b.delay_ms) a rest)
  ]
