-- ===== src/Runtime/Returns.antt =====
-- Total correctness: a command that returns, with what holds of its result and of the state it leaves.
use yellow_tree.Runtime.World.{World, Outcome, ok, Cmd, and_then}

pub data Returns {J A : Type 0} (Q : A → World J → Type 0) : Outcome J A → Type 0 where
  done : {a : A} {w : World J} → Q a w → Returns Q (ok a w)

pub Returns-chain :
    {J A B : Type 0} {P : A → World J → Type 0} {Q : B → World J → Type 0} {o : Outcome J A}
    {k : A → Cmd J B}
    → Returns P o
    → ((a : A) (w : World J) → P a w → Returns Q (k a w))
    → Returns Q (and_then o k)
Returns-chain (done h) next = next _ _ h
