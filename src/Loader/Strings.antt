-- ===== src/Loader/Strings.antt =====
-- `load_string_table` of core/loader.c.
use atomix_js.Prelude.{ℕ, ◌+◌, ◌*◌}
use atomix_js.Prelude.Word.{sub64}
use atomix_js.Format.{StringTable, bytes_at}
use atomix_js.Vm.Exec.{Exec, pure, lift, ◌>>=◌, Host, gc_malloc_checked, gc_malloc_unchecked}
use atomix_js.Loader.Bytes.{Buffer, read_uint, read_offsets}

-- `str_buff_length`, in the arithmetic of `size_t`.
unfoldable pub str_buff_length : ℕ → ℕ → ℕ
str_buff_length length count = sub64 (sub64 length (count * 4)) 8

-- The table at `start`.
unfoldable pub load_string_table : Host → Buffer → ℕ → Exec StringTable
load_string_table h buff start = do
  length ← lift (read_uint 4 buff start)
  count ← lift (read_uint 4 buff (start + 4))
  offsets_ptr ← gc_malloc_checked h
  offsets ← lift (read_offsets count buff (start + 8))
  strings_ptr ← gc_malloc_unchecked h
  strings ← lift (bytes_at buff (start + 8 + count * 4) (str_buff_length length count))
  pure (record { length = length; count = count; offsets = offsets; strings = strings })
