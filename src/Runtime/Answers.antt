-- ===== src/Runtime/Answers.antt =====
-- Results on the stack: a C function that answers with the number n leaves at least n values on its
-- stack, where Lua takes them from. Each function answers with none or with one.
use yellow_tree.Common.{
  ℕ, ◌≤◌, Bool, true, false, if◌then◌else◌, length, arith, ◌≡◌, subst, List, ◌∷◌,
}
use yellow_tree.Runtime.Value.{Value}
use yellow_tree.Runtime.World.{World, Outcome, ok, raised, aborted, undefined, Cmd, and_then}

-- What holds of a result and of the state with it, if the command returns.
pub data Ends {J A : Type 0} (Q : A → World J → Type 0) : Outcome J A → Type 0 where
  returns : {a : A} {w : World J} → Q a w → Ends Q (ok a w)
  raises : {v : Value} {w : World J} → Ends Q (raised v w)
  aborts : {w : World J} → Ends Q (aborted w)
  faults : {w : World J} → Ends Q (undefined w)

module _ {J A B : Type 0} {P : A → World J → Type 0} {Q : B → World J → Type 0} where
  pub Ends-chain :
      {o : Outcome J A} {k : A → Cmd J B}
      → Ends P o
      → ((a : A) (w : World J) → P a w → Ends Q (k a w))
      → Ends Q (and_then o k)
  Ends-chain (returns h) next = next _ _ h
  Ends-chain raises next = raises
  Ends-chain aborts next = aborts
  Ends-chain faults next = faults

module _ {J A B : Type 0} {Q : B → World J → Type 0} where
  pub Ends-skip :
      (o : Outcome J A) {k : A → Cmd J B}
      → ((a : A) (w : World J) → Ends Q (k a w))
      → Ends Q (and_then o k)
  Ends-skip (ok a w) next = next a w
  Ends-skip (raised v w) next = raises
  Ends-skip (aborted w) next = aborts
  Ends-skip (undefined w) next = faults

pub Ends-branch :
    {J A : Type 0} {Q : A → World J → Type 0} (b : Bool) {o o' : Outcome J A}
    → Ends Q o
    → Ends Q o'
    → Ends Q (if b then o else o')
Ends-branch true h h' = h
Ends-branch false h h' = h'

-- What an outcome says of its result, if it has one.
abbrev Says : {J A : Type 0} → (A → World J → Type 0) → Outcome J A → Type 0
Says Q (ok a w) = Q a w
Says Q _ = Unit

Ends-Says : {J A : Type 0} {Q : A → World J → Type 0} {o : Outcome J A} → Ends Q o → Says Q o
Ends-Says (returns h) = h
Ends-Says raises = tt
Ends-Says aborts = tt
Ends-Says faults = tt

pub Ends-ok :
    {J A : Type 0} {Q : A → World J → Type 0} {o : Outcome J A} {a : A} {w : World J}
    → Ends Q o
    → o ≡ ok a w
    → Q a w
Ends-ok {Q} h e = subst (Says Q) e (Ends-Says h)

-- The same where the commands are chosen from.
pub Ends-choice :
    {J A : Type 0} {Q : A → World J → Type 0} (b : Bool) {m n : Cmd J A}
    → ((w : World J) → Ends Q (m w))
    → ((w : World J) → Ends Q (n w))
    → (w : World J) → Ends Q ((if b then m else n) w)
Ends-choice true h h' = h
Ends-choice false h h' = h'

-- There is a value on the stack; and there are as many as the result says.
pub data Filled : List Value → Type 0 where
  filled : {v : Value} {rest : List Value} → Filled (v ∷ rest)

pub data Enough : ℕ → List Value → Type 0 where
  none : {frame : List Value} → Enough 0 frame
  one : {frame : List Value} → Filled frame → Enough 1 frame

pub Enough-le : {n : ℕ} {frame : List Value} → Enough n frame → n ≤ length frame
Enough-le none = omega arith
Enough-le (one filled) = omega arith

pub Enough-one : {n : ℕ} {frame : List Value} → Enough n frame → n ≤ 1
Enough-one none = omega arith
Enough-one (one h) = omega arith

-- A command from any state, and one from a state with a value on the stack.
abbrev pub Answers : {J : Type 0} → Cmd J ℕ → Type 0
Answers {J} m = (w : World J) → Ends (λ n v. Enough n v.frame) (m w)

abbrev pub Pushes : {J A : Type 0} → Cmd J A → Type 0
Pushes {J} m = (w : World J) → Ends (λ _ v. Filled v.frame) (m w)

abbrev pub Holds : {J A : Type 0} → Cmd J A → Type 0
Holds {J} m = (w : World J) → Filled w.frame → Ends (λ _ v. Filled v.frame) (m w)

module _ {J A : Type 0} where
  -- The last calls: a command that leaves a value, and one result.
  pub Ends-one :
      {o : Outcome J A}
      → Ends (λ _ v. Filled v.frame) o
      → Ends (λ n v. Enough n v.frame) (and_then o (λ _ v. ok 1 v))
  Ends-one h = Ends-chain h (λ a w q. returns (one q))

  pub Ends-none : (o : Outcome J A) → Ends (λ n v. Enough n v.frame) (and_then o (λ _ v. ok 0 v))
  Ends-none o = Ends-skip o (λ a w. returns none)
