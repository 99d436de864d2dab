-- ===== src/Event/Rows.antt =====
-- The rows of the two tables under setting and clearing: one row changes, the others stay.
use yellow_tree.Common.{ℕ, Option, none, some, ◌≡◌, ◌≢◌, refl, arith, [], ◌∷◌}
use yellow_tree.Runtime.Value.{Ptr, Value, Ref, ref, no_ref, Handler, EventCallbacks}
use yellow_tree.Runtime.Host.{Host}
use yellow_tree.Runtime.World.{CallbackRefs, World, ok, enter, Cmd, and_then}
use yellow_tree.Runtime.Stack.{value_of_ref}
use yellow_tree.Event.{read_member, write_member, read_ref, write_ref}
use yellow_tree.Event.Names.{Callback, breakpoint, name_of, member_of, handler_of, ref_of}
use yellow_tree.Event.Registry.{lj_set_jvmti_callback, lj_clear_jvmti_callback}
use yellow_tree.Event.Setting.{Accepts, after_set, after_clear, set_lem, clear_lem}

pub read_member-write_self :
    (c : Callback) (h : Option Handler) (t : EventCallbacks)
    → read_member (member_of c) (write_member (member_of c) h t) ≡ h
read_member-write_self breakpoint h t = refl
read_member-write_self _ h t = refl

pub read_ref-write_self :
    (c : Callback) (r : Ref) (t : CallbackRefs) → read_ref (ref_of c) (write_ref (ref_of c) r t) ≡ r
read_ref-write_self breakpoint r t = refl
read_ref-write_self _ r t = refl

pub read_member-write_ne :
    (c d : Callback) (h : Option Handler) (t : EventCallbacks)
    → c ≢ d
    → read_member (member_of d) (write_member (member_of c) h t) ≡ read_member (member_of d) t
read_member-write_ne breakpoint d h t ne = ground arith
read_member-write_ne _ d h t ne = ground arith

pub read_ref-write_ne :
    (c d : Callback) (r : Ref) (t : CallbackRefs)
    → c ≢ d
    → read_ref (ref_of d) (write_ref (ref_of c) r t) ≡ read_ref (ref_of d) t
read_ref-write_ne breakpoint d r t ne = ground arith
read_ref-write_ne _ d r t ne = ground arith

write_member-restore :
    (c : Callback) (h : Option Handler) (t : EventCallbacks)
    → read_member (member_of c) t ≡ none
    → write_member (member_of c) none (write_member (member_of c) h t) ≡ t
write_member-restore breakpoint h t e = ground arith
write_member-restore _ h t e = ground arith

write_ref-restore :
    (c : Callback) (r : Ref) (t : CallbackRefs)
    → read_ref (ref_of c) t ≡ no_ref
    → write_ref (ref_of c) no_ref (write_ref (ref_of c) r t) ≡ t
write_ref-restore breakpoint r t e = ground arith
write_ref-restore _ r t e = ground arith

-- What a row holds: the C function, and the Lua function's reference.
abbrev pub row : {J : Type 0} → Callback → World J → Option Handler × Ref
row c w = (read_member (member_of c) w.jvmti_callbacks, read_ref (ref_of c) w.callback_refs)

-- Lua sets a callback to a function and then clears it.
abbrev pub set_then_clear : {J : Type 0} ⦃host : Host J⦄ → Callback → (f : ℕ) → Cmd J ℕ
set_then_clear c f w =
    and_then (lj_set_jvmti_callback (enter (Value.function f ∷ Value.string (name_of c) ∷ []) w))
      (λ _ v. lj_clear_jvmti_callback (enter (Value.string (name_of c) ∷ []) v))

module _ {J : Type 0} ⦃host : Host J⦄ (acc : Accepts host) (c : Callback) (f : ℕ) (w : World J)
    {thread : Ptr} (here : w.lj_current_thread ≡ some thread)
    (ne : host.lua.fresh_ref w.registry ≢ 0) where
  -- With JVMTI accepting the calls, a current thread and a reference other than 0,
  -- lj_set_jvmti_callback returns nothing and leaves no argument; the row of the callback then
  -- holds its C function and the new reference, any other row is as it was, and the registry keeps
  -- the Lua function under the reference.
  pub set_row :
      (d : Callback)
      → c ≢ d
      → (v : World J) × (lj_set_jvmti_callback
            (enter (Value.function f ∷ Value.string (name_of c) ∷ []) w)
          ≡ ok 0 v)
        × (v.frame ≡ [])
        × (row c v ≡ (some (handler_of c), ref (host.lua.fresh_ref w.registry)))
        × (row d v ≡ row d w)
        × (value_of_ref (ref (host.lua.fresh_ref w.registry)) v.registry ≡ Value.function f)
  set_row d apart = (
    after_set c f thread w,
    set_lem acc c f w here ne,
    refl,
    cc (
      read_member-write_self c (some (handler_of c)) w.jvmti_callbacks,
      read_ref-write_self c (ref (host.lua.fresh_ref w.registry)) w.callback_refs,
    ),
    cc (
      read_member-write_ne c d (some (handler_of c)) w.jvmti_callbacks apart,
      read_ref-write_ne c d (ref (host.lua.fresh_ref w.registry)) w.callback_refs apart,
    ),
    ground arith,
  )

  -- With JVMTI accepting the calls, a current thread and a reference other than 0, setting a
  -- callback that was not set and clearing it again returns and restores both tables.
  pub clear-set :
      row c w ≡ (none, no_ref)
      → (v : World J) × (set_then_clear c f w ≡ ok 0 v)
        × (v.jvmti_callbacks ≡ w.jvmti_callbacks)
        × (v.callback_refs ≡ w.callback_refs)
  clear-set e = (
    after_clear c thread (after_set c f thread w),
    rw (set_lem acc c f w here ne) (clear_lem acc c (after_set c f thread w) here),
    write_member-restore c _ _ (cc e),
    write_ref-restore c _ _ (cc e),
  )
