-- ===== src/Runtime/Value.antt =====
-- Values as they stand on the stack of a Lua state, and the records that cross the JVM interface.
-- The four kinds of userdata are those that java_bridge/types.c makes.
use yellow_tree.Common.{
  ℕ, Bool, true, false, Option, none, some, String, ◌==◌, if◌then◌else◌, str_eq,
}
use yellow_tree.Common.Int.{ℤ}

-- A pointer that the JVM hands out: a jobject, a jmethodID, a jfieldID, a monitor or a buffer.
abbrev pub Ptr : Type 0
Ptr = ℕ

-- The names under which the registry holds the metatables of the raw userdata.
pub data Meta : Type 0 where
  jobject jmethod_id jfield_id jmonitor : Meta

abbrev pub same_meta : Meta → Meta → Bool
same_meta Meta.jobject Meta.jobject = true
same_meta Meta.jmethod_id Meta.jmethod_id = true
same_meta Meta.jfield_id Meta.jfield_id = true
same_meta Meta.jmonitor Meta.jmonitor = true
same_meta _ _ = false

-- What the block of a userdata holds; `field` is the pair `lj_field_id` of java_bridge.h.
pub data Content : Type 0 where
  unset : Content
  pointer : Ptr → Content
  field : (field_id klass : Ptr) → Content

pub data Key : Type 0 where
  name : String → Key
  index : ℕ → Key

abbrev pub same_key : Key → Key → Bool
same_key (name s) (name t) = str_eq s t
same_key (index i) (index j) = i == j
same_key _ _ = false

-- A number that is no integer is kept by the bits of the double.
mutual
  pub data Value : Type 0 where
    nil : Value
    boolean : Bool → Value
    integer : ℤ → Value
    number : ℕ → Value
    string : String → Value
    userdata : Option Meta → Content → Value
    metatable : Meta → Value
    table : Fields → Value
    function : ℕ → Value
    c_function : String → Value
    thread : Value

  pub data Fields : Type 0 where
    empty : Fields
    entry : Key → Value → Fields → Fields

-- A raw object, a method id and a field id with their metatables.
abbrev pub object : Ptr → Value
object p = userdata (some Meta.jobject) (pointer p)

abbrev pub method : Ptr → Value
method p = userdata (some Meta.jmethod_id) (pointer p)

abbrev pub monitor : Ptr → Value
monitor p = userdata (some Meta.jmonitor) (pointer p)

abbrev pub field_of : (field_id klass : Ptr) → Value
field_of f c = userdata (some Meta.jfield_id) (field f c)

-- A raw object, or nil for a null pointer.
abbrev pub object_or_nil : Option Ptr → Value
object_or_nil none = nil
object_or_nil (some p) = object p

-- `t[k] = v` on a table.
abbrev pub put : Key → Value → Fields → Fields
put k v empty = entry k v empty
put k v (entry j w t) = if same_key k j then entry k v t else entry j w (put k v t)

-- `t[k]`
abbrev pub get : Key → Fields → Option Value
get k empty = none
get k (entry j w t) = if same_key k j then some w else get k t

-- `lua_toboolean`
abbrev pub to_boolean : Value → Bool
to_boolean nil = false
to_boolean (boolean b) = b
to_boolean _ = true

-- A block of memory that JVMTI allocated, with what it holds. A null block holds nothing.
pub record Buffer (A : Type 0) : Type 0 where
  pub at : Option Ptr
  pub contents : A

pub record FrameInfo : Type 0 where
  pub method : Ptr
  pub location : ℤ

pub record LocalVariableEntry : Type 0 where
  pub name : Buffer String
  pub signature : Buffer String
  pub start_location : ℤ
  pub slot : ℤ

pub record LineNumberEntry : Type 0 where
  pub start_location : ℤ
  pub line_number : ℤ

-- What `luaL_ref` answers: LUA_NOREF is never such an answer, LUA_REFNIL stands for nil.
pub data Ref : Type 0 where
  no_ref ref_nil : Ref
  ref : ℕ → Ref

abbrev pub is_no_ref : Ref → Bool
is_no_ref no_ref = true
is_no_ref _ = false

abbrev pub is_zero_ref : Ref → Bool
is_zero_ref (ref n) = n == 0
is_zero_ref _ = false

-- The error codes of JVMTI that the code tells apart, and the others by number.
pub data JvmtiError : Type 0 where
  error_none invalid_slot type_mismatch null_pointer absent_information native_method : JvmtiError
  illegal_argument : JvmtiError
  other_error : ℕ → JvmtiError

abbrev pub is_none_error : JvmtiError → Bool
is_none_error error_none = true
is_none_error _ = false

pub data EventMode : Type 0 where
  enable disable : EventMode

pub data EventType : Type 0 where
  vm_init vm_death breakpoint method_entry method_exit single_step exception : EventType
  field_access field_modification : EventType

-- The C functions that an event can be sent to.
pub data Handler : Type 0 where
  cb_vm_init cb_vm_death cb_breakpoint cb_method_entry cb_method_exit cb_single_step : Handler
  cb_exception_throw cb_field_access cb_field_modification : Handler

-- The members of `jvmtiEventCallbacks` that the code writes; null is `none`.
pub record EventCallbacks : Type 0 where
  pub on_vm_init : Option Handler
  pub on_vm_death : Option Handler
  pub on_breakpoint : Option Handler
  pub on_method_entry : Option Handler
  pub on_method_exit : Option Handler
  pub on_single_step : Option Handler
  pub on_exception : Option Handler
  pub on_field_access : Option Handler
  pub on_field_modification : Option Handler

-- `jvalue`, by the member that was written.
pub data JValue : Type 0 where
  zeroed : JValue
  l : Option Ptr → JValue
  z : Bool → JValue
  b : ℤ → JValue
  c : ℤ → JValue
  s : ℤ → JValue
  i : ℤ → JValue
  j : ℤ → JValue
  f : ℕ → JValue
  d : ℕ → JValue
