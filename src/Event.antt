-- ===== src/Event.antt =====
-- lua_jvmti_event.c: sending JVMTI events to Lua functions. This file holds the tables that the
-- component keeps, `Registry` the two Lua functions that fill them, `Dispatch` the C callbacks.
pub mod Registry
pub mod Spares
pub mod Names
pub mod Wiring
pub mod Reachable
pub mod Setting
pub mod Delivery
pub mod Modes
pub mod Protected
pub mod Dispatch
pub mod Rows
pub mod Unknown
pub mod History
pub mod Refinement
use yellow_tree.Common.{Bool, true, false, Option, none, some, String, str_eq, if◌then◌else◌}
use yellow_tree.Runtime.Value.{
  Ref, no_ref, Handler, cb_breakpoint, cb_method_entry, cb_method_exit, cb_single_step,
  cb_exception_throw, cb_field_access, cb_field_modification, EventCallbacks, cb_vm_init,
  cb_vm_death,
}
use yellow_tree.Runtime.World.{CallbackRefs, World, Cmd, modify}

-- The members of `jvmtiEventCallbacks` whose address the code takes.
pub data Member : Type 0 where
  breakpoint_member method_entry_member method_exit_member single_step_member : Member
  exception_member field_access_member field_modification_member : Member

-- The members of `lj_jvmti_callbacks`.
pub data RefMember : Type 0 where
  breakpoint_ref method_entry_ref method_exit_ref single_step_ref : RefMember
  exception_throw_ref exception_catch_ref field_access_ref field_modification_ref : RefMember

abbrev pub read_member : Member → EventCallbacks → Option Handler
read_member breakpoint_member t = t.on_breakpoint
read_member method_entry_member t = t.on_method_entry
read_member method_exit_member t = t.on_method_exit
read_member single_step_member t = t.on_single_step
read_member exception_member t = t.on_exception
read_member field_access_member t = t.on_field_access
read_member field_modification_member t = t.on_field_modification

abbrev pub write_member : Member → Option Handler → EventCallbacks → EventCallbacks
write_member breakpoint_member h t = record t { on_breakpoint = h }
write_member method_entry_member h t = record t { on_method_entry = h }
write_member method_exit_member h t = record t { on_method_exit = h }
write_member single_step_member h t = record t { on_single_step = h }
write_member exception_member h t = record t { on_exception = h }
write_member field_access_member h t = record t { on_field_access = h }
write_member field_modification_member h t = record t { on_field_modification = h }

abbrev pub read_ref : RefMember → CallbackRefs → Ref
read_ref breakpoint_ref t = t.cb_breakpoint_ref
read_ref method_entry_ref t = t.cb_method_entry_ref
read_ref method_exit_ref t = t.cb_method_exit_ref
read_ref single_step_ref t = t.cb_single_step_ref
read_ref exception_throw_ref t = t.cb_exception_throw_ref
read_ref exception_catch_ref t = t.cb_exception_catch_ref
read_ref field_access_ref t = t.cb_field_access_ref
read_ref field_modification_ref t = t.cb_field_modification_ref

abbrev pub write_ref : RefMember → Ref → CallbackRefs → CallbackRefs
write_ref breakpoint_ref r t = record t { cb_breakpoint_ref = r }
write_ref method_entry_ref r t = record t { cb_method_entry_ref = r }
write_ref method_exit_ref r t = record t { cb_method_exit_ref = r }
write_ref single_step_ref r t = record t { cb_single_step_ref = r }
write_ref exception_throw_ref r t = record t { cb_exception_throw_ref = r }
write_ref exception_catch_ref r t = record t { cb_exception_catch_ref = r }
write_ref field_access_ref r t = record t { cb_field_access_ref = r }
write_ref field_modification_ref r t = record t { cb_field_modification_ref = r }

-- A table of zero bytes.
abbrev pub no_callbacks : EventCallbacks
no_callbacks = record {
  on_vm_init = none;
  on_vm_death = none;
  on_breakpoint = none;
  on_method_entry = none;
  on_method_exit = none;
  on_single_step = none;
  on_exception = none;
  on_field_access = none;
  on_field_modification = none;
}

-- As `Agent_OnLoad` leaves it.
abbrev pub loaded_callbacks : EventCallbacks
loaded_callbacks = record no_callbacks {
  on_vm_init = some cb_vm_init;
  on_vm_death = some cb_vm_death;
}

-- No callback is set: every member is LUA_NOREF.
abbrev pub no_refs : CallbackRefs
no_refs = record {
  cb_breakpoint_ref = no_ref;
  cb_method_entry_ref = no_ref;
  cb_method_exit_ref = no_ref;
  cb_single_step_ref = no_ref;
  cb_exception_throw_ref = no_ref;
  cb_exception_catch_ref = no_ref;
  cb_field_access_ref = no_ref;
  cb_field_modification_ref = no_ref;
}

-- `lj_init_jvmti_event`
unfoldable pub lj_init_jvmti_event : {J : Type 0} → Cmd J (Unit {0})
lj_init_jvmti_event = modify (λ w. record w { callback_refs = no_refs })

-- The three pointers that `get_jvmti_callback_pointers` stores; null is `none`.
pub record Pointers : Type 0 where
  pub jvmti_function : Option Member
  pub lj_function : Option Handler
  pub ref_member : Option RefMember

abbrev pub pointers : Member → Handler → RefMember → Pointers
pointers m h r = record { jvmti_function = some m; lj_function = some h; ref_member = some r }

abbrev pub no_pointers : Pointers
no_pointers = record { jvmti_function = none; lj_function = none; ref_member = none }

unfoldable pub get_jvmti_callback_pointers : String → Pointers
get_jvmti_callback_pointers callback =
    if str_eq callback "breakpoint"
    then pointers breakpoint_member cb_breakpoint breakpoint_ref
    else if str_eq callback "method_entry"
    then pointers method_entry_member cb_method_entry method_entry_ref
    else if str_eq callback "method_exit"
    then pointers method_exit_member cb_method_exit method_exit_ref
    else if str_eq callback "single_step"
    then pointers single_step_member cb_single_step single_step_ref
    else if str_eq callback "exception_throw"
    then pointers exception_member cb_exception_throw exception_throw_ref
    else if str_eq callback "field_access"
    then pointers field_access_member cb_field_access field_access_ref
    else if str_eq callback "field_modification"
    then pointers field_modification_member cb_field_modification field_modification_ref
    else no_pointers
