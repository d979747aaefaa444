-- ===== src/Loader/Safe.antt =====
-- What the loader makes of any buffer: arrays as long as their counts say, and numbers that fit.
use atomix_js.Prelude.{
  ℕ, zero, suc, ◌+◌, ◌*◌, ◌≡◌, ◌<◌, refl, ap, false, not, ◌&&◌, some, length, arith, Option,
  get_elem?, get_elem?-lt, ==_refl, ◌==◌, leb,
}
use atomix_js.Format.Element.{element_lem}
use atomix_js.Format.{element, bytes_at}
use atomix_js.Instruction.{Inst}
use atomix_js.Vm.{Vm, Ptr, JsModule, null}
use atomix_js.Vm.Exec.{
  Host, gc_malloc, gc_malloc_checked, gc_malloc_unchecked, put_module, pure, lift, deref_module,
  ◌>>=◌,
}
use atomix_js.Vm.Returns.{
  Yields, Returns, Yields-any, Yields-bind, Returns-lift, Returns-bind, Returns-after, Returns-if,
}
use atomix_js.Scope.{scope_create_scope}
use atomix_js.Object.{object_create_object, object_get_object_prototype}
use atomix_js.Execution.Calls.{Calls}
use atomix_js.Execution.Run.{vm_exec, run_instruction}
use atomix_js.Loader.Bytes.{Buffer, byte_at, read_uint, read_offsets}
use atomix_js.Loader.Code.{load_instruction, load_instructions, load_data_section}
use atomix_js.Loader.Files.{
  check_header, module_magic3, module_version, module_load_from_buffer_offset,
}
use atomix_js.Loader.Strings.{load_string_table, str_buff_length}
use atomix_js.Loader.Trip.Holds.{byte_bound}

byte_at-Bounded : (buff : Buffer) (p : ℕ) → Yields (λ b. b < 256) (byte_at buff p)
unfolding byte_at
byte_at-Bounded buff p =
    Yields-bind (Yields-any (element buff p)) λ b u. Yields.yields (omega arith)

read_uint-Bounded :
    (n : ℕ) (buff : Buffer) (p : ℕ) → Yields (λ x. x < byte_bound n) (read_uint n buff p)
unfolding read_uint
read_uint-Bounded zero buff p = Yields.yields (omega arith)
read_uint-Bounded (suc n) buff p =
    Yields-bind (byte_at-Bounded buff p)
      λ b low. Yields-bind (read_uint-Bounded n buff (p + 1)) λ x small. Yields.yields (omega arith)

length-read_offsets :
    (n : ℕ) (buff : Buffer) (p : ℕ) → Yields (λ xs. length xs ≡ n) (read_offsets n buff p)
unfolding read_offsets
length-read_offsets zero buff p = Yields.yields refl
length-read_offsets (suc n) buff p =
    Yields-bind (Yields-any (read_uint 4 buff p))
      λ x u. Yields-bind (length-read_offsets n buff (p + 4)) λ xs e. Yields.yields (ap suc e)

module _ (h : Host) (buff : Buffer) where
  length-load_instructions :
      (n position : ℕ) (vm : Vm)
      → Returns (λ is w. length is ≡ n) (load_instructions h buff n position vm)
  unfolding load_instructions
  length-load_instructions zero position vm = Returns.returns refl
  length-load_instructions (suc n) position vm =
      Returns-after (load_instruction h buff position vm) λ loaded w.
        Returns-bind (length-load_instructions n loaded.1 w) λ is w1 e. Returns.returns (ap suc e)

  load_data_section-Counted :
      (start : ℕ) (vm : Vm)
      → Returns
          (λ d w. (length d.instructions ≡ d.count) × (d.count < byte_bound 4))
          (load_data_section h buff start vm)
  unfolding load_data_section
  load_data_section-Counted start vm = Returns-after (lift (read_uint 4 buff start) vm) λ n w1.
      Returns-bind (Returns-lift w1 (read_uint-Bounded 4 buff (start + 4))) λ count w2 small.
        Returns-after (gc_malloc h w2) λ p w3.
          Returns-if (p == null && not (count == 0)) w3 (λ w. Returns.crashes)
            (λ w.
              Returns-bind (length-load_instructions count (start + 8) w)
                λ is w4 e. Returns.returns (e, small))

  load_string_table-Counted :
      (start : ℕ) (vm : Vm)
      → Returns (λ t w. length t.offsets ≡ t.count) (load_string_table h buff start vm)
  unfolding load_string_table
  load_string_table-Counted start vm = Returns-after (lift (read_uint 4 buff start) vm) λ n w1.
      Returns-after (lift (read_uint 4 buff (start + 4)) w1) λ count w2.
        Returns-after (gc_malloc_checked h w2) λ p w3.
          Returns-bind (Returns-lift w3 (length-read_offsets count buff (start + 8))) λ xs w4 e.
            Returns-after (gc_malloc_unchecked h w4) λ q w5.
              Returns-after
                (lift (bytes_at buff (start + 8 + count * 4) (str_buff_length n count)) w5)
                λ bytes w6. Returns.returns e

-- The arrays of a module are as long as its counts say.
pub record IsSound (m : JsModule) : Type 0 where
  pub instructions_counted : length m.instructions ≡ m.count
  pub count_fits : m.count < byte_bound 4
  pub offsets_counted : length m.string_table.offsets ≡ m.string_table.count

abbrev pub StoredSound : Ptr → Vm → Type 0
StoredSound p vm =
    (m : JsModule) × ((vm.heap.modules p ≡ some m) × (IsSound m × (m.initialized ≡ false)))

stored :
    (p : Ptr) (next : ℕ) (m : JsModule) (vm : Vm)
    → IsSound m
    → m.initialized ≡ false
    → Returns (λ n w. StoredSound p w) ((put_module p m >>= λ u. pure next) vm)
unfolding put_module
stored p next m vm sound fresh = Returns.returns (m, (rw (==_refl p) refl, (sound, fresh)))

module _ (h : Host) (buff : Buffer) where
  -- Whatever the buffer holds, a module that the loader stores has as many instructions and as many
  -- offsets of strings as its counts say, and is marked as not initialized.
  pub module_load_from_buffer_offset-IsSound :
      (p : Ptr) (position : ℕ) (vm : Vm)
      → Returns (λ next w. StoredSound p w) (module_load_from_buffer_offset h buff p position vm)
  unfolding module_load_from_buffer_offset put_module
  module_load_from_buffer_offset-IsSound p position vm =
      Returns-after (check_header h buff module_magic3 module_version position vm) λ u w.
        Returns-after (lift (read_uint 8 buff (position + 6)) w) λ hash w1.
          Returns-after (lift (read_uint 4 buff (position + 14)) w1) λ table_start w2.
            Returns-after (lift (read_uint 4 buff (position + 18)) w2) λ data_start w3.
              Returns-bind (load_string_table-Counted h buff (table_start + position) w3) λ t w4 a.
                Returns-bind (load_data_section-Counted h buff (data_start + position) w4) λ d w5 b.
                  Returns-after (object_get_object_prototype h w5) λ parent w6.
                    Returns-after (object_create_object h parent w6) λ exports w7.
                      Returns-after (scope_create_scope h null w7) λ scope w8.
                        stored p (position + 22) _ w8
                          (record {
                            instructions_counted = b.0;
                            count_fits = b.1;
                            offsets_counted = a;
                          })
                          refl

-- In such a module, `vm_exec` finds an instruction wherever the counter is below the count: it moves
-- the counter on and runs the instruction that stands at the counter, and no other.
pub vm_exec-IsSound :
    (h : Host) (c : Calls) (m : JsModule) (vm : Vm)
    → vm.heap.modules vm.current ≡ some m
    → IsSound m
    → vm.stats.instruction_counter < m.count
    → (i : Option Inst) × (get_elem? m.instructions vm.stats.instruction_counter ≡ some i)
      × (vm_exec h c vm
          ≡ run_instruction h c i (record vm {
            stats = record vm.stats { instruction_counter = vm.stats.instruction_counter + 1 };
          }))
unfolding vm_exec deref_module
vm_exec-IsSound h c m vm is sound below =
    let counted = sound.instructions_counted in
    let found = get_elem?-lt m.instructions vm.stats.instruction_counter (omega arith) in
    (
      found.0,
      found.1,
      rw
          (
            is,
            not_beyond (omega arith),
            element_lem m.instructions vm.stats.instruction_counter found.0 found.1,
          )
          refl,
    )
  where
    not_beyond :
        vm.stats.instruction_counter < m.count → leb m.count vm.stats.instruction_counter ≡ false
    not_beyond b = ground arith
