-- ===== src/Runtime/Jni.antt =====
-- The Java Native Interface: the functions of `JNIEnv` that the agent calls, as a parameter. The
-- families `Call<Type>MethodA`, `Get<Type>Field` and `Get<Type>ArrayRegion` are one function each,
-- with the member of `jvalue` that the result is stored in as its first argument.
use yellow_tree.Common.{Bool, Option, List, String}
use yellow_tree.Common.Int.{ℤ}
use yellow_tree.Runtime.Value.{Ptr, JValue}

pub data JType : Type 0 where
  void_type object_type boolean_type byte_type char_type short_type int_type : JType
  long_type float_type double_type : JType

pub record Jni (J : Type 0) : Type 0 where
  pub exception_check : J → Bool
  pub exception_describe : J → J
  pub exception_clear : J → J
  pub find_class : String → J → Option Ptr × J
  pub get_method_id : (klass : Ptr) (name sig : String) → J → Option Ptr × J
  pub get_static_method_id : (klass : Ptr) (name sig : String) → J → Option Ptr × J
  pub get_field_id : (klass : Ptr) (name sig : String) → J → Option Ptr × J
  pub get_static_field_id : (klass : Ptr) (name sig : String) → J → Option Ptr × J
  pub new_global_ref : Ptr → J → Option Ptr × J
  pub delete_global_ref : Ptr → J → J
  -- text
  pub new_string_utf : String → J → Option Ptr × J
  pub get_string_utf_chars : Option Ptr → J → Option String × J
  pub release_string_utf_chars : Option Ptr → J → J
  -- calls
  pub new_object_a : (klass method : Ptr) → List JValue → J → Option Ptr × J
  pub call_method_a : JType → (object method : Ptr) → List JValue → J → JValue × J
  pub call_static_method_a : JType → (klass method : Ptr) → List JValue → J → JValue × J
  -- fields
  pub get_field : JType → (object field_id : Ptr) → J → JValue × J
  pub get_static_field : JType → (klass field_id : Ptr) → J → JValue × J
  -- arrays
  pub get_array_length : Ptr → J → ℤ × J
  pub get_array_element : JType → (array : Ptr) (index : ℤ) → J → JValue × J
  pub set_array_element : JType → (array : Ptr) (index : ℤ) → JValue → J → J
