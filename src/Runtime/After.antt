-- ===== src/Runtime/After.antt =====
-- What holds of the state that a command leaves, however it ends; and what holds when it returns.
use yellow_tree.Common.{Bool, true, false, if◌then◌else◌}
use yellow_tree.Runtime.World.{
  World, Outcome, ok, raised, aborted, undefined, Cmd, and_then, pure, ◌>>=◌, ◌>>◌,
}
use yellow_tree.Runtime.Value.{Value}

pub data After {J A : Type 0} (P : World J → Type 0) : Outcome J A → Type 0 where
  returns : {a : A} {w : World J} → P w → After P (ok a w)
  raises : {v : Value} {w : World J} → P w → After P (raised v w)
  aborts : {w : World J} → P w → After P (aborted w)
  faults : {w : World J} → P w → After P (undefined w)

module _ {J A : Type 0} {P : World J → Type 0} where
  pub bind :
      {B : Type 0} {Q : World J → Type 0} {o : Outcome J A} {k : A → Cmd J B}
      → After P o
      → ((w : World J) → P w → Q w)
      → ((a : A) (w : World J) → P w → After Q (k a w))
      → After Q (and_then o k)
  bind (returns h) weaken next = next _ _ h
  bind (raises h) weaken next = raises (weaken _ h)
  bind (aborts h) weaken next = aborts (weaken _ h)
  bind (faults h) weaken next = faults (weaken _ h)

  pub chain :
      {B : Type 0} {o : Outcome J A} {k : A → Cmd J B}
      → After P o
      → ((a : A) (w : World J) → P w → After P (k a w))
      → After P (and_then o k)
  chain h next = bind h (λ w p. p) next

  pub branch :
      (b : Bool) {o o' : Outcome J A} → After P o → After P o' → After P (if b then o else o')
  branch true h h' = h
  branch false h h' = h'

-- A command that starts where `P` holds leaves `P` behind, however it ends.
pub record Keeps {J A : Type 0} (P : World J → Type 0) (m : Cmd J A) : Type 0 where
  pub at : (w : World J) → P w → After P (m w)

module _ {J : Type 0} {P : World J → Type 0} where
  pub Keeps-pure : {A : Type 0} (a : A) → Keeps P (pure a)
  Keeps-pure a = record { at = λ w h. returns h }

  pub Keeps-bind :
      {A B : Type 0} {m : Cmd J A} {f : A → Cmd J B}
      → Keeps P m
      → ((a : A) → Keeps P (f a))
      → Keeps P (m >>= f)
  Keeps-bind km kf = record { at = λ w h. chain (km.at w h) (λ a w' h'. (kf a).at w' h') }

  pub Keeps-then :
      {A B : Type 0} {m : Cmd J A} {n : Cmd J B} → Keeps P m → Keeps P n → Keeps P (m >> n)
  Keeps-then km kn = record { at = λ w h. chain (km.at w h) (λ a w' h'. kn.at w' h') }
