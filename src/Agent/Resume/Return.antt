-- ===== src/Agent/Resume/Return.antt =====
-- From every state the thread of cbVMInit can come to its end; and the calls of `g` that come too
-- early are lost.
use yellow_tree.Common.{ℕ, zero, suc, true, false, ◌≡◌, refl, ◌∙◌, ◌⊎◌, inl, inr, arith}
use yellow_tree.Agent.Resume.{
  InitPc, CommandPc, Owner, System, Step, Steps, at_start, after_notify, run_agent_thread,
  init_enter, init_wait, init_wake, init_exit, g_enter, g_notify, g_exit, still, step,
}
use yellow_tree.Agent.Resume.Interleaving.{
  Consistent, Step-Consistent, Steps-Consistent, init_inside, started,
}

append : {s t u : System} → Steps s t → Steps t u → Steps s u
append r still = r
append r (step q st) = step (append r q) st

-- The thread of cbVMInit can come to its end from `s`.
abbrev CanReturn : System → Type 0
CanReturn s = (t : System) × Steps s t × (t.init ≡ InitPc.returned)

return_through : {s t : System} → Step s t → CanReturn t → CanReturn s
return_through st (u, r, e) = (u, append (step still st) r, e)

-- A state that `s` leads to, with nobody in the monitor; the thread may have been notified.
abbrev Freed : System → Type 0
Freed s =
    (t : System) × Steps s t
    × (t.owner ≡ Owner.nobody)
    × (t.command ≡ CommandPc.prompt)
    × ((t.init ≡ s.init) ⊎ (t.init ≡ InitPc.notified))

moved :
    (s : System) (p : InitPc)
    → s.init ≡ p
    → ((after_notify s).init ≡ s.init) ⊎ ((after_notify s).init ≡ InitPc.notified)
moved s InitPc.waiting e = inr (ground arith)
moved s _ e = inl (ground arith)

free :
    (s : System) (c : CommandPc)
    → s.command ≡ c
    → Consistent s
    → init_inside s.init ≡ false
    → started s.init CommandPc.prompt ≡ true
    → Freed s
free s CommandPc.not_started e k i r = let q = k.starting in absurd (ground arith)
free s CommandPc.prompt e k i r = let o = k.owned in (s, still, ground arith, e, inl refl)
free s CommandPc.notifies e k i r =
    (_, step (step still (g_notify e)) (g_exit (ground arith)), refl, refl, moved s s.init refl)
free s CommandPc.exits e k i r = (_, step still (g_exit e), refl, refl, inl refl)

Steps-keep : {s t : System} → Steps s t → Consistent s → Consistent t
Steps-keep still k = k
Steps-keep (step r st) k = Step-Consistent st (Steps-keep r k)

return_along : {s t : System} → Steps s t → CanReturn t → CanReturn s
return_along r (u, q, e) = (u, append r q, e)

from_exits : (s : System) → s.init ≡ InitPc.exits → CanReturn s
from_exits s e = (_, step still (init_exit e), refl)

from_notified : (s : System) → Consistent s → s.init ≡ InitPc.notified → CanReturn s
from_notified s k e = go (free s s.command refl k (ground arith) (ground arith))
  where
    go : Freed s → CanReturn s
    go (t, r, o, c, inl p) =
        return_along r (return_through (init_wake (p ∙ e) o) (from_exits _ refl))
    go (t, r, o, c, inr p) = return_along r (return_through (init_wake p o) (from_exits _ refl))

from_waiting : (s : System) → Consistent s → s.init ≡ InitPc.waiting → CanReturn s
from_waiting s k e = go (free s s.command refl k (ground arith) (ground arith))
  where
    go : Freed s → CanReturn s
    go (t, r, o, c, inl p) =
        let q = g_enter c o in
        return_along r (
          return_through q (
            return_through (g_notify refl) (
              from_notified _ (Step-Consistent (g_notify refl) (Step-Consistent q (Steps-keep r k)))
                (let x = p ∙ e in ground arith))))
    go (t, r, o, c, inr p) = return_along r (from_notified t (Steps-keep r k) p)

from_waits : (s : System) → Consistent s → s.init ≡ InitPc.waits → CanReturn s
from_waits s k e =
    return_through (init_wait e) (from_waiting _ (Step-Consistent (init_wait e) k) refl)

from_enters : (s : System) → Consistent s → s.init ≡ InitPc.enters → CanReturn s
from_enters s k e = go (free s s.command refl k (ground arith) (ground arith))
  where
    go : Freed s → CanReturn s
    go (t, r, o, c, inl p) =
        let q = init_enter (p ∙ e) o in
        return_along r (return_through q (from_waits _ (Step-Consistent q (Steps-keep r k)) refl))
    go (t, r, o, c, inr p) = return_along r (from_notified t (Steps-keep r k) p)

can_return : (s : System) (p : InitPc) → s.init ≡ p → Consistent s → CanReturn s
can_return s InitPc.runs_agent_thread e k =
    return_through (run_agent_thread e)
      (from_enters _ (Step-Consistent (run_agent_thread e) k) refl)
can_return s InitPc.enters e k = from_enters s k e
can_return s InitPc.waits e k = from_waits s k e
can_return s InitPc.waiting e k = from_waiting s k e
can_return s InitPc.notified e k = from_notified s k e
can_return s InitPc.exits e k = from_exits s e
can_return s InitPc.returned e k = (s, still, e)

-- From every state that an interleaving of the two threads leads to, some continuation brings the
-- thread of cbVMInit to its end: no deadlock.
pub always_can_return :
    {s : System} → Steps at_start s → (t : System) × Steps s t × (t.init ≡ InitPc.returned)
always_can_return {s} r = can_return s s.init refl (Steps-Consistent r)

-- The thread waits after `n` calls of `g` that it did not hear.
abbrev pub waiting_after : ℕ → System
waiting_after n = record {
  owner = Owner.nobody;
  init = InitPc.waiting;
  command = CommandPc.prompt;
  heard = 0;
  unheard = n;
}

early : (n : ℕ) → Steps at_start (record (waiting_after n) { init = InitPc.enters })
early zero = step still (run_agent_thread refl)
early (suc n) = step (step (step (early n) (g_enter refl refl)) (g_notify refl)) (g_exit refl)

only_g : (n : ℕ) {t : System} → Step (waiting_after n) t → t.command ≡ CommandPc.notifies
only_g n (g_enter a b) = refl
only_g n (run_agent_thread a) = absurd (ground arith)
only_g n (init_enter a b) = absurd (ground arith)
only_g n (init_wait a) = absurd (ground arith)
only_g n (init_wake a b) = absurd (ground arith)
only_g n (init_exit a) = absurd (ground arith)
only_g n (g_notify a) = absurd (ground arith)
only_g n (g_exit a) = absurd (ground arith)

-- For every number n, n calls of g may all come before the thread of cbVMInit waits: then it has
-- heard none of them and waits, and the only step left is one more call of g.
pub early_calls_lost :
    (n : ℕ)
    → Steps at_start (waiting_after n)
      × ((t : System) → Step (waiting_after n) t → t.command ≡ CommandPc.notifies)
early_calls_lost n =
    (step (step (early n) (init_enter refl refl)) (init_wait refl), λ t st. only_g n st)
