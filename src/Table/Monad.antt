-- ===== src/Table/Monad.antt =====
-- A method of `Table`: it reads and changes the table, and returns or throws. What was written
-- before a throw stays written.
use vr_poker.Prelude.{Bool, Option, none, some, if◌then◌else◌, [], ◌∷◌, ◌++◌}
use vr_poker.Table.State.{Table, Event}

-- The messages of the errors; `null_access` is a read through `!` of what is not there, and
-- `out_of_streets` is no error of the source: it marks fuel that ran out.
pub data Error : Type 0 where
  bad_seat_count already_seated bad_buy_in no_empty_seat add_on_too_large : Error
  add_on_not_positive need_two_players not_betting_street no_action_to_take not_your_turn : Error
  out_of_the_action illegal_action bet_out_of_range raise_out_of_range invalid_chip_put : Error
  no_live_seat not_seated hand_in_progress deck_exhausted bad_hand null_access : Error
  out_of_streets : Error

pub data Result (A : Type 0) : Type 0 where
  ok : A → Result A
  err : Error → Result A

abbrev pub Action : Type 0 → Type 0
Action A = Table → Result A × Table

module _ {A : Type 0} where
  unfoldable pub pure : A → Action A
  pure a t = (ok a, t)

  unfoldable pub throw : Error → Action A
  throw e t = (err e, t)

  unfoldable pub gets : (Table → A) → Action A
  gets f t = (ok (f t), t)

  unfoldable pub or_throw : Option A → Error → Action A
  or_throw none e t = (err e, t)
  or_throw (some a) e t = (ok a, t)

abbrev pub and_then : {A B : Type 0} → (A → Action B) → Result A × Table → Result B × Table
and_then f (ok a, t) = f a t
and_then f (err e, t) = (err e, t)

-- Shut, so that the laws of a method are found by the shape of its `do` block.
infixl 5 ◌>>=◌ ◌>>◌
unfoldable pub ◌>>=◌ : {A B : Type 0} → Action A → (A → Action B) → Action B
◌>>=◌ m f t = and_then f (m t)

unfoldable pub ◌>>◌ : {A B : Type 0} → Action A → Action B → Action B
◌>>◌ m k t = and_then (λ _. k) (m t)

unfoldable pub modify : (Table → Table) → Action (Unit {0})
modify f t = (ok tt, f t)

unfoldable pub throw_if : Bool → Error → Action (Unit {0})
throw_if b e t = ((if b then err e else ok tt), t)

unfoldable pub skip : Action (Unit {0})
skip t = (ok tt, t)

unfoldable pub log : Event → Action (Unit {0})
log e t = (ok tt, record t { events = t.events ++ (e ∷ []) })

-- Named on an `unfolding` line, this runs the methods.
unfoldable pub running : Unit {0}
unfolding pure throw gets or_throw ◌>>=◌ ◌>>◌ modify throw_if skip log
running = tt
