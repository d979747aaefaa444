-- ===== src/Vm.antt =====
-- core/vm.impl.h and the structs that the machine reaches: objects, functions, scopes and modules
-- (core/object.impl.h, core/function.impl.h, core/scope.impl.h, core/format.impl.h). Each kind of
-- struct has its own part of the heap, a partial map from addresses; address 0 is NULL. The stack
-- is an array of 254 values.
pub mod Exec
pub mod Keeps
pub mod Live
pub mod Returns
pub mod Succeeds
use atomix_js.Prelude.{
  ℕ, zero, Bool, true, false, Option, none, some, List, Str, ◌==◌, if◌then◌else◌,
}
use atomix_js.Value.{JsValue}
use atomix_js.Dict.{JsDict}
use atomix_js.Format.{StringTable}
use atomix_js.Instruction.{Inst}

abbrev pub Ptr : Type 0
Ptr = ℕ

abbrev pub null : Ptr
null = 0

abbrev pub stack_size : ℕ
stack_size = 254

pub record JsObject : Type 0 where
  pub prototype : Ptr
  pub properties : JsDict

pub record Scope : Type 0 where
  pub parent : Ptr
  pub symbols : JsDict

-- `home` is the field `module`, a reserved word here.
pub record JsFunction : Type 0 where
  pub base : Ptr
  pub native_function : ℕ
  pub scope : Ptr
  pub home : Ptr
  pub instruction_start : ℕ
  pub instruction_end : ℕ
  pub is_native : Bool

pub record JsGsBox : Type 0 where
  pub getter : Ptr
  pub setter : Ptr

-- `instructions` holds `none` where the loader stored NULL.
pub record JsModule : Type 0 where
  pub bundle : Ptr
  pub hash : ℕ
  pub string_table : StringTable
  pub count : ℕ
  pub instructions : List (Option Inst)
  pub initialized : Bool
  pub exports : Ptr
  pub scope : Ptr

-- `modules` is the address of the array of the modules.
pub record JsBundle : Type 0 where
  pub entry_point : ℕ
  pub module_count : ℕ
  pub modules : Ptr

-- A part of the heap.
abbrev pub Region : Type 0 → Type 0
Region A = Ptr → Option A

abbrev pub update {ℓ} : {A : Type ℓ} → (ℕ → A) → ℕ → A → ℕ → A
update f i x j = if j == i then x else f j

-- `allocs` counts the calls of the allocator.
pub record Heap : Type 0 where
  pub allocs : ℕ
  pub strings : Region Str
  pub objects : Region JsObject
  pub scopes : Region Scope
  pub functions : Region JsFunction
  pub boxes : Region JsGsBox
  pub modules : Region JsModule
  pub bundles : Region JsBundle

-- The static variables of core/object.c, core/symbol.c and core/api.c, and what the process has
-- printed. `native_modules` holds the modules of the list, and `output` the texts, the last one first.
pub record Globals : Type 0 where
  pub object_prototype : Ptr
  pub array_prototype : Ptr
  pub function_prototype : Ptr
  pub symbol_prototype : Ptr
  pub symbol_to_primitive : Ptr
  pub native_modules : List Ptr
  pub output : List Str

pub record VmStats : Type 0 where
  pub instruction_counter : ℕ
  pub stack_counter : ℕ
  pub stack_start : ℕ
  pub stack : ℕ → JsValue

-- `current` is the field `module`. The heap and the static variables belong to the process.
pub record Vm : Type 0 where
  pub current : Ptr
  pub global_scope : Ptr
  pub scope : Ptr
  pub stats : VmStats
  pub heap : Heap
  pub globals : Globals
