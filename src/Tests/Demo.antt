-- ===== src/Tests/Demo.antt =====
-- A JVM that keeps the mode of each event and thread, accepts every call, and allocates the same
-- buffers each time; with it a Lua state and a world in which nothing is set.
use yellow_tree.Common.{
  ℕ, Bool, false, Option, none, some, [], ◌∷◌, ◌==◌, ◌&&◌, if◌then◌else◌, ◌+◌, List,
}
use yellow_tree.Common.Int.{ℤ, pos}
use yellow_tree.Lj.Heap.{same_tag}
use yellow_tree.Runtime.Value.{
  Ptr, Value, Fields, Buffer, JvmtiError, error_none, EventMode, EventType, JValue, no_ref,
}
use yellow_tree.Runtime.Jvmti.{Jvmti}
use yellow_tree.Runtime.Jni.{Jni}
use yellow_tree.Runtime.Host.{Host, Lua}
use yellow_tree.Runtime.World.{World, Scripts}
use yellow_tree.Event.{loaded_callbacks}
use yellow_tree.Event.Modes.{is_enable}

abbrev pub Jvm : Type 0
Jvm = (EventType → Ptr → Bool) × (Ptr → ℤ)

-- Two objects stand in the heap, the first of class 21.
abbrev pub heap_objects : List Ptr
heap_objects = 61 ∷ 62 ∷ []

abbrev pub heap_class : Ptr → Ptr
heap_class o = if o == 61 then 21 else 22

abbrev pub with_tag : (Ptr → ℤ) → ℤ → List Ptr → List Ptr
with_tag tags t [] = []
with_tag tags t (o ∷ os) =
    let rest = with_tag tags t os in if same_tag (tags o) t then o ∷ rest else rest

abbrev pub event_number : EventType → ℕ
event_number EventType.vm_init = 0
event_number EventType.vm_death = 1
event_number EventType.breakpoint = 2
event_number EventType.method_entry = 3
event_number EventType.method_exit = 4
event_number EventType.single_step = 5
event_number EventType.exception = 6
event_number EventType.field_access = 7
event_number EventType.field_modification = 8

abbrev pub set_mode : EventMode → EventType → Option Ptr → Jvm → Jvm
set_mode m e none (modes, tags) =
    (λ d u. if event_number e == event_number d then is_enable m else modes d u, tags)
set_mode m e (some t) (modes, tags) =
    (λ d u. if (event_number e == event_number d) && (t == u) then is_enable m else modes d u, tags)

abbrev pub buffer : {A : Type 0} → ℕ → A → Buffer A
buffer p a = record { at = some p; contents = a }

abbrev done : {A : Type 0} → A → Jvm → JvmtiError × A × Jvm
done a j = (error_none, a, j)

abbrev pub accept : Jvm → JvmtiError × Jvm
accept j = (error_none, j)

abbrev demo_jvmti : Jvmti Jvm
demo_jvmti = record {
  set_breakpoint = λ m n. accept;
  clear_breakpoint = λ m n. accept;
  set_field_access_watch = λ k f. accept;
  set_field_modification_watch = λ k f. accept;
  get_local_int = λ t d s. done (pos 7);
  get_local_long = λ t d s. done (pos 8);
  get_local_float = λ t d s. done 9;
  get_local_double = λ t d s. done 10;
  get_local_object = λ t d s. done (some 11);
  get_method_name = λ m. done (buffer 100 "run", buffer 101 "()V");
  get_method_declaring_class = λ m. done (some 21);
  get_method_modifiers = λ m. done (pos 9);
  get_local_variable_table = λ m. done (
      buffer 102 (
        record {
          name = buffer 103 "x";
          signature = buffer 104 "I";
          start_location = pos 0;
          slot = pos 1;
        }
        ∷ []));
  get_line_number_table =
      λ m. done (some (buffer 105 (record { start_location = pos 0; line_number = pos 3 } ∷ [])));
  get_field_name = λ k f. done (buffer 106 "size", buffer 107 "I");
  get_field_declaring_class = λ k f. done (some 22);
  get_field_modifiers = λ k f. done (pos 66);
  get_class_fields = λ k. done (buffer 108 (31 ∷ 32 ∷ []));
  get_class_methods = λ k. done (buffer 109 (41 ∷ []));
  get_source_file_name = λ k. done (buffer 110 "Test.java");
  get_loaded_classes = done (buffer 111 (51 ∷ 52 ∷ []));
  get_class_signature = λ k. done (buffer (200 + k) "LTest;");
  iterate_through_heap = λ k f j. (
    error_none,
    (j.0, λ o. if heap_class o == k then (f (pos 0) (pos 16) (j.1 o) (pos 0)).0 else j.1 o),
  );
  get_objects_with_tags = λ t j. done (buffer 112 (with_tag j.1 t heap_objects), buffer 113 []) j;
  get_all_threads = done (buffer 114 (71 ∷ []));
  get_frame_count = λ t. done (pos 2);
  get_stack_trace = λ t n m. done (record { method = 81; location = pos 4 } ∷ []);
  force_early_return_object = λ t o. accept;
  force_early_return_int = λ t n. accept;
  force_early_return_void = λ t. accept;
  create_raw_monitor = λ s. done 91;
  destroy_raw_monitor = λ m. accept;
  raw_monitor_enter = λ m. accept;
  raw_monitor_exit = λ m. accept;
  raw_monitor_wait = λ m n. accept;
  raw_monitor_notify = λ m. accept;
  raw_monitor_notify_all = λ m. accept;
  set_event_notification_mode = λ m e t j. accept (set_mode m e t j);
  set_event_callbacks = λ t. accept;
  deallocate = λ p. accept;
  get_error_name = λ e j. (some (115, "JVMTI_ERROR"), j);
}

abbrev demo_jni : Jni Jvm
demo_jni = record {
  exception_check = λ j. false;
  exception_describe = λ j. j;
  exception_clear = λ j. j;
  find_class = λ s j. (some 1, j);
  get_method_id = λ k n s j. (none, j);
  get_static_method_id = λ k n s j. (some 2, j);
  get_field_id = λ k n s j. (none, j);
  get_static_field_id = λ k n s j. (some 3, j);
  new_global_ref = λ p j. (some (p + 1000), j);
  delete_global_ref = λ p j. j;
  new_string_utf = λ s j. (some 4, j);
  get_string_utf_chars = λ p j. (some "text", j);
  release_string_utf_chars = λ p j. j;
  new_object_a = λ k m args j. (some 5, j);
  call_method_a = λ t o m args j. (JValue.zeroed, j);
  call_static_method_a = λ t k m args j. (JValue.l (some 6), j);
  get_field = λ t o f j. (JValue.zeroed, j);
  get_static_field = λ t k f j. (JValue.zeroed, j);
  get_array_length = λ a j. (pos 0, j);
  get_array_element = λ t a i j. (JValue.zeroed, j);
  set_array_element = λ t a i v j. j;
}

-- a reference greater than all in use
abbrev pub above : List (ℕ × Value) → ℕ
above [] = 1
above ((k, v) ∷ rest) = above rest + k

abbrev demo_lua : Lua Jvm
demo_lua = record {
  to_integer = λ v. none;
  to_number = λ v. none;
  to_string = λ v. none;
  argument_error = λ n s. s;
  call_debug_traceback = λ f v n. v;
  fresh_ref = above;
  with_position = λ s. s;
  widen = λ n. n;
  narrow_float = λ n. n;
  indeterminate = pos 3;
  format_d = λ n. "1";
  format_p = λ p. "0x1";
}

instance abbrev pub demo_host : Host Jvm
demo_host = record { jvmti = demo_jvmti; jni = demo_jni; lua = demo_lua }

-- Lua functions that return nothing and change nothing.
instance abbrev pub demo_scripts : Scripts Jvm
demo_scripts = record { call = λ f args n w. ([], w) }

-- Nothing is set, and thread 1007 is the current one.
abbrev pub start : World Jvm
start = record {
  jvm = (λ e t. false, λ o. pos 0);
  frame = [];
  lj_err = error_none;
  lj_current_thread = some 1007;
  agent_options = "";
  gagent_jerr = error_none;
  jvmti_callbacks = loaded_callbacks;
  callback_refs = record {
    cb_breakpoint_ref = no_ref;
    cb_method_entry_ref = no_ref;
    cb_method_exit_ref = no_ref;
    cb_single_step_ref = no_ref;
    cb_exception_throw_ref = no_ref;
    cb_exception_catch_ref = no_ref;
    cb_field_access_ref = no_ref;
    cb_field_modification_ref = no_ref;
  };
  globals = Fields.empty;
  registry = [];
  search_tag = pos 1;
  buffers = [];
  printed = [];
}
