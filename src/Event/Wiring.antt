-- ===== src/Event/Wiring.antt =====
-- The invariant of the event component: a member of the JVMTI table is set just where the reference
-- of the same name is, and then to the C function of that name.
use yellow_tree.Common.{
  ℕ, Bool, true, false, Option, none, some, String, ◌≡◌, refl, arith, if◌then◌else◌, inl, inr, ◌≢◌,
  List,
}
use yellow_tree.Runtime.Value.{
  Ref, no_ref, is_zero_ref, Handler, cb_breakpoint, cb_method_entry, cb_method_exit, cb_single_step,
  cb_exception_throw, cb_field_access, cb_field_modification, EventCallbacks, Value, ref_nil, ref,
}
use yellow_tree.Runtime.Host.{Host}
use mathlib.Core.List.{List, [], ◌∷◌}
use yellow_tree.Runtime.Value.{Value}
use yellow_tree.LuaJava.{check_jvmti_error}
use yellow_tree.Runtime.Stack.{ref_top, lua_ref, lua_error_message}
use yellow_tree.Runtime.World.{CallbackRefs, World, pure, ◌>>=◌, and_then, ◌>>◌}
use yellow_tree.Runtime.After.{
  After, returns, raises, faults, Keeps, Keeps-pure, Keeps-bind, Keeps-then,
}
use yellow_tree.Event.{lj_init_jvmti_event, Cmd}
use yellow_tree.Event.Registry.{
  lj_set_jvmti_callback, lj_clear_jvmti_callback, store_callback, remove_callback, switched_event,
  install_callbacks,
}
use yellow_tree.Event.Spares
use yellow_tree.Event.Names.{Callback, breakpoint, member_of, handler_of, ref_of, pointers-cases}
use yellow_tree.Event.{write_member, write_ref, loaded_callbacks}

-- One row of the two tables.
abbrev pub Wired : Handler → Option Handler → Ref → Type 0
Wired h none r = r ≡ no_ref
Wired h (some k) r = (k ≡ h) × (r ≢ no_ref)

pub record IsWired (t : EventCallbacks) (r : CallbackRefs) : Type 0 where
  pub at_breakpoint : Wired cb_breakpoint t.on_breakpoint r.cb_breakpoint_ref
  pub at_method_entry : Wired cb_method_entry t.on_method_entry r.cb_method_entry_ref
  pub at_method_exit : Wired cb_method_exit t.on_method_exit r.cb_method_exit_ref
  pub at_single_step : Wired cb_single_step t.on_single_step r.cb_single_step_ref
  pub at_exception : Wired cb_exception_throw t.on_exception r.cb_exception_throw_ref
  pub at_field_access : Wired cb_field_access t.on_field_access r.cb_field_access_ref
  pub at_field_modification :
      Wired cb_field_modification t.on_field_modification r.cb_field_modification_ref

abbrev pub Wiring : {J : Type 0} → World J → Type 0
Wiring = Spares.Tables IsWired

-- Before anything is set, the seven rows of both tables are empty.
pub lj_init_jvmti_event-IsWired :
    {J : Type 0} (w : World J)
    → w.jvmti_callbacks ≡ loaded_callbacks
    → After Wiring (lj_init_jvmti_event w)
unfolding lj_init_jvmti_event
lj_init_jvmti_event-IsWired w e = returns (
    rw e (record {
      at_breakpoint = refl;
      at_method_entry = refl;
      at_method_exit = refl;
      at_single_step = refl;
      at_exception = refl;
      at_field_access = refl;
      at_field_modification = refl;
    }))

-- One row is filled, or emptied.
write-IsWired :
    (c : Callback) (r : Ref) (t : EventCallbacks) (refs : CallbackRefs)
    → r ≢ no_ref
    → IsWired t refs
    → IsWired (write_member (member_of c) (some (handler_of c)) t) (write_ref (ref_of c) r refs)
write-IsWired breakpoint r t refs ne h = ground arith
write-IsWired _ r t refs ne h = ground arith

clear-IsWired :
    (c : Callback) (t : EventCallbacks) (refs : CallbackRefs)
    → IsWired t refs
    → IsWired (write_member (member_of c) none t) (write_ref (ref_of c) no_ref refs)
clear-IsWired breakpoint t refs h = ground arith
clear-IsWired _ t refs h = ground arith

module _ {J : Type 0} ⦃host : Host J⦄ where
  ref_top-bind :
      {A : Type 0} (l : List Value) (f : Ref → Cmd J A) (w : World J)
      → ((r : Ref) → r ≢ no_ref → Keeps Wiring (f r))
      → Wiring w
      → After Wiring (and_then (ref_top l w) f)
  ref_top-bind [] f w kf h = faults h
  ref_top-bind (Value.nil ∷ l) f w kf h = (kf ref_nil (ground arith)).at _ h
  ref_top-bind (_ ∷ l) f w kf h = (kf (ref _) (ground arith)).at _ h

  -- `luaL_ref` never answers LUA_NOREF.
  lua_ref-bind :
      {A : Type 0} (f : Ref → Cmd J A)
      → ((r : Ref) → r ≢ no_ref → Keeps Wiring (f r))
      → Keeps Wiring (lua_ref >>= f)
  lua_ref-bind f kf = record { at = λ w h. ref_top-bind w.frame f w kf h }

  install :
      (file : String) (line : ℕ) (func : String)
      → Keeps Wiring (install_callbacks {J = J} >> check_jvmti_error file line func)
  install file line func =
      Keeps-then (Spares.install_callbacks-Spares IsWired)
        (Spares.check_jvmti_error-Spares file line func IsWired)

  store_callback-IsWired :
      (s : String) (r : Ref) → r ≢ no_ref → Keeps Wiring (store_callback {J = J} s r)
  unfolding store_callback
  store_callback-IsWired s r ne = elim (pointers-cases s) [
    | inl e ↦ rw e (record { at = λ w h. raises h })
    | inr (c, e) ↦ rw e (record {
      at = λ w h.
          (install _ _ _).at
            (record w {
              jvmti_callbacks = write_member (member_of c) (some (handler_of c)) w.jvmti_callbacks;
              callback_refs = write_ref (ref_of c) r w.callback_refs;
            })
            (write-IsWired c r _ _ ne h);
    })
  ]

  remove_callback-IsWired : (s : String) → Keeps Wiring (remove_callback {J = J} s)
  unfolding remove_callback
  remove_callback-IsWired s = elim (pointers-cases s) [
    | inl e ↦ rw e (record { at = λ w h. faults h })
    | inr (c, e) ↦ rw e (record {
      at = λ w h.
          (install _ _ _).at
            (record w {
              jvmti_callbacks = write_member (member_of c) none w.jvmti_callbacks;
              callback_refs = write_ref (ref_of c) no_ref w.callback_refs;
            })
            (clear-IsWired c _ _ h);
    })
  ]

  zero_check-Spares :
      (b : Bool) (msg : String)
      → Spares.Spares {J = J} (if b then lua_error_message msg else pure tt)
  zero_check-Spares true msg P = Spares.lua_error_message-Spares msg P
  zero_check-Spares false msg P = Keeps-pure tt

  -- Whatever the arguments are and however the call ends, `lj_set_jvmti_callback` keeps the two
  -- tables in step.
  pub lj_set_jvmti_callback-IsWired : Keeps Wiring (lj_set_jvmti_callback {J = J})
  unfolding lj_set_jvmti_callback
  lj_set_jvmti_callback-IsWired = Keeps-bind (Spares.check_string-Spares 1 IsWired) λ s.
      Keeps-then (Spares.check_function-Spares 2 IsWired) (
        lua_ref-bind _ λ r ne. Keeps-then (Spares.lua_pop-Spares 1 IsWired) (
          Keeps-then (zero_check-Spares (is_zero_ref r) _ IsWired) (
            Keeps-then (Spares.set_no_error-Spares IsWired) (
              Keeps-then (Spares.enable_event-Spares (switched_event s) IsWired) (
                Keeps-then (Spares.check_jvmti_error-Spares _ _ _ IsWired)
                  (Keeps-then (store_callback-IsWired s r ne) (Keeps-pure 0)))))))

  -- The same of `lj_clear_jvmti_callback`.
  pub lj_clear_jvmti_callback-IsWired : Keeps Wiring (lj_clear_jvmti_callback {J = J})
  unfolding lj_clear_jvmti_callback
  lj_clear_jvmti_callback-IsWired = Keeps-bind (Spares.check_string-Spares 1 IsWired) λ s.
      Keeps-then (Spares.lua_pop-Spares 1 IsWired) (
        Keeps-then (Spares.set_no_error-Spares IsWired) (
          Keeps-then (Spares.disable_event-Spares (switched_event s) IsWired) (
            Keeps-then (Spares.check_jvmti_error-Spares _ _ _ IsWired)
              (Keeps-then (remove_callback-IsWired s) (Keeps-pure 0)))))
