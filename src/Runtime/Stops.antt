-- ===== src/Runtime/Stops.antt =====
-- Commands that run outside every protected call: they return, with what holds of their result and
-- of the state they leave, or they stop the process.
use yellow_tree.Runtime.World.{World, Outcome, ok, aborted, Cmd, and_then}

pub data Stops {J A : Type 0} (Q : A → World J → Type 0) : Outcome J A → Type 0 where
  returns : {a : A} {w : World J} → Q a w → Stops Q (ok a w)
  stops : {w : World J} → Stops Q (aborted w)

pub Stops-chain :
    {J A B : Type 0} {P : A → World J → Type 0} {Q : B → World J → Type 0} {o : Outcome J A}
    {k : A → Cmd J B}
    → Stops P o
    → ((a : A) (w : World J) → P a w → Stops Q (k a w))
    → Stops Q (and_then o k)
Stops-chain (returns h) next = next _ _ h
Stops-chain stops next = stops
