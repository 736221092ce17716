-- ===== src/App/Post/Results.antt =====
-- What holds after an action that starts with a computed result.
use aacp.Prelude.{◌≡◌, refl, Bool, true, false, if◌then◌else◌}
use aacp.Exec.{Error, Result, ok, err, lift, gets, reading, and_then, ◌>>=◌, ◌>>◌}
use aacp.App.Router.{World, Action}
use aacp.App.Post.{Post}

-- the ways for a result to be reached
pub and_then_ok :
    {A B : Type 0} (r : Result A) (f : A → Result B) (b : B)
    → and_then r f ≡ ok b
    → (a : A) × (r ≡ ok a) × (f a ≡ ok b)
unfolding and_then
and_then_ok (ok a) f b h = (a, refl, h)
and_then_ok (err e) f b h = cc

module _ {Raw A B : Type 0} (w : World Raw) (Q : Result A → World Raw → Type 0) where
  pub post_lift :
      (r : Result B) (k : B → Action Raw A)
      → ((e : Error) → Q (err e) w)
      → ((b : B) → r ≡ ok b → Post w (k b) Q)
      → Post w (lift r >>= k) Q
  post_lift (ok b) k bad good = record { holds = (good b refl).holds }
  post_lift (err e) k bad good = record { holds = bad e }

  pub post_gets :
      (f : World Raw → B) (k : B → Action Raw A) → Post w (k (f w)) Q → Post w (gets f >>= k) Q
  post_gets f k h = record { holds = h.holds }

  reading_at :
      (r : Result B) (k : B → Action Raw A)
      → ((e : Error) → Q (err e) w)
      → ((b : B) → r ≡ ok b → Post w (k b) Q)
      → let m : Action Raw B = λ _. (r, w) in Q ((m >>= k) w).0 ((m >>= k) w).1
  reading_at (ok b) k bad good = (good b refl).holds
  reading_at (err e) k bad good = bad e

  pub post_reading :
      (f : World Raw → Result B) (k : B → Action Raw A)
      → ((e : Error) → Q (err e) w)
      → ((b : B) → f w ≡ ok b → Post w (k b) Q)
      → Post w (reading f >>= k) Q
  post_reading f k bad good = record { holds = reading_at (f w) k bad good }

module _ {Raw A B : Type 0} (w : World Raw) (Q : Result A → World Raw → Type 0) where
  -- a branch before the rest
  pub post_if_then :
      (b : Bool) (m n : Action Raw B) (k : Action Raw A)
      → (b ≡ true → Post w (m >> k) Q)
      → (b ≡ false → Post w (n >> k) Q)
      → Post w ((if b then m else n) >> k) Q
  post_if_then true m n k h i = h refl
  post_if_then false m n k h i = i refl

pub ruleset result_rules = (post_lift, post_gets, post_reading)
