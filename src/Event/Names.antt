-- ===== src/Event/Names.antt =====
-- The names that the Lua side gives to the callbacks, and what each name stands for.
use yellow_tree.Common.{String, ◌≡◌, refl, str_eq, Bool-cases, inl, inr, ◌⊎◌}
use yellow_tree.Runtime.Value.{
  Handler, cb_breakpoint, cb_method_entry, cb_method_exit, cb_single_step, cb_exception_throw,
  cb_field_access, cb_field_modification,
}
use yellow_tree.Event.{Pointers, get_jvmti_callback_pointers, pointers, Member, RefMember}
use yellow_tree.Event

-- The seven callbacks that can be set.
pub data Callback : Type 0 where
  breakpoint method_entry method_exit single_step exception_throw : Callback
  field_access field_modification : Callback

abbrev pub name_of : Callback → String
name_of breakpoint = "breakpoint"
name_of method_entry = "method_entry"
name_of method_exit = "method_exit"
name_of single_step = "single_step"
name_of exception_throw = "exception_throw"
name_of field_access = "field_access"
name_of field_modification = "field_modification"

abbrev pub member_of : Callback → Member
member_of breakpoint = Member.breakpoint_member
member_of method_entry = Member.method_entry_member
member_of method_exit = Member.method_exit_member
member_of single_step = Member.single_step_member
member_of exception_throw = Member.exception_member
member_of field_access = Member.field_access_member
member_of field_modification = Member.field_modification_member

abbrev pub handler_of : Callback → Handler
handler_of breakpoint = cb_breakpoint
handler_of method_entry = cb_method_entry
handler_of method_exit = cb_method_exit
handler_of single_step = cb_single_step
handler_of exception_throw = cb_exception_throw
handler_of field_access = cb_field_access
handler_of field_modification = cb_field_modification

abbrev pub ref_of : Callback → RefMember
ref_of breakpoint = RefMember.breakpoint_ref
ref_of method_entry = RefMember.method_entry_ref
ref_of method_exit = RefMember.method_exit_ref
ref_of single_step = RefMember.single_step_ref
ref_of exception_throw = RefMember.exception_throw_ref
ref_of field_access = RefMember.field_access_ref
ref_of field_modification = RefMember.field_modification_ref

abbrev pub pointers_of : Callback → Pointers
pointers_of c = pointers (member_of c) (handler_of c) (ref_of c)

pub pointers-name : (c : Callback) → get_jvmti_callback_pointers (name_of c) ≡ pointers_of c
unfolding get_jvmti_callback_pointers
pointers-name breakpoint = refl
pointers-name method_entry = refl
pointers-name method_exit = refl
pointers-name single_step = refl
pointers-name exception_throw = refl
pointers-name field_access = refl
pointers-name field_modification = refl

-- No other pointers are ever handed out.
pub pointers-cases :
    (s : String)
    → (get_jvmti_callback_pointers s ≡ Event.no_pointers)
      ⊎ ((c : Callback) × (get_jvmti_callback_pointers s ≡ pointers_of c))
unfolding get_jvmti_callback_pointers
pointers-cases s = elim (Bool-cases (str_eq s "breakpoint")) [
  | inl e ↦ inr (breakpoint, rw e)
  | inr e ↦ rw e (elim (Bool-cases (str_eq s "method_entry")) [
    | inl e ↦ inr (method_entry, rw e)
    | inr e ↦ rw e (elim (Bool-cases (str_eq s "method_exit")) [
      | inl e ↦ inr (method_exit, rw e)
      | inr e ↦ rw e (elim (Bool-cases (str_eq s "single_step")) [
        | inl e ↦ inr (single_step, rw e)
        | inr e ↦ rw e (elim (Bool-cases (str_eq s "exception_throw")) [
          | inl e ↦ inr (exception_throw, rw e)
          | inr e ↦ rw e (elim (Bool-cases (str_eq s "field_access")) [
            | inl e ↦ inr (field_access, rw e)
            | inr e ↦ rw e (elim (Bool-cases (str_eq s "field_modification")) [
              | inl e ↦ inr (field_modification, rw e)
              | inr e ↦ inl (rw e)
            ])
          ])
        ])
      ])
    ])
  ])
]
