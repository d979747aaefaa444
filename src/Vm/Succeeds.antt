-- ===== src/Vm/Succeeds.antt =====
-- Runs that return: a predicate of the value and of the state behind it.
use atomix_js.Prelude.{ℕ, false, ◌≡◌, refl, ◌==◌}
use atomix_js.Vm.{Vm, null}
use atomix_js.Vm.Exec.{
  Exec, Outcome, ret, then_run, Host, gc_malloc, gc_malloc_checked, gc_malloc_unchecked,
}

pub data Succeeds {A : Type 0} (P : A → Vm → Type 0) : Outcome A → Type 0 where
  succeeds : {a : A} {vm : Vm} → P a vm → Succeeds P (ret a vm)

module _ {A B : Type 0} {P : A → Vm → Type 0} {Q : B → Vm → Type 0} where
  pub Succeeds-bind :
      {r : Outcome A} {f : A → Exec B}
      → Succeeds P r
      → ((a : A) (vm : Vm) → P a vm → Succeeds Q (f a vm))
      → Succeeds Q (then_run r f)
  Succeeds-bind (succeeds p) k = k _ _ p

module _ {A : Type 0} {P Q : A → Vm → Type 0} where
  pub Succeeds-mono :
      {r : Outcome A} → Succeeds P r → ((a : A) (vm : Vm) → P a vm → Q a vm) → Succeeds Q r
  Succeeds-mono (succeeds p) weaken = succeeds (weaken _ _ p)

module _ {A : Type 0} {P : A → Vm → Type 0} where
  pub Succeeds-run : {r : Outcome A} → Succeeds P r → (a : A) × (vm : Vm) × (r ≡ ret a vm) × P a vm
  Succeeds-run (succeeds p) = (_, _, refl, p)

-- The collector has memory left, whatever the number of the call.
pub record Allocates (h : Host) : Type 0 where
  pub never_null : (n : ℕ) → (h.malloc n == null) ≡ false

module _ (h : Host) (memory : Allocates h) where
  pub gc_malloc_unchecked-Succeeds : (vm : Vm) → Succeeds (λ p w. Unit) (gc_malloc_unchecked h vm)
  unfolding gc_malloc_unchecked gc_malloc
  gc_malloc_unchecked-Succeeds vm = rw (memory.never_null vm.heap.allocs) (succeeds tt)

  pub gc_malloc_checked-Succeeds : (vm : Vm) → Succeeds (λ p w. Unit) (gc_malloc_checked h vm)
  unfolding gc_malloc_checked gc_malloc
  gc_malloc_checked-Succeeds vm = rw (memory.never_null vm.heap.allocs) (succeeds tt)

-- The outcome of the rest.
pub Succeeds-then :
    {A B : Type 0} {P : A → Vm → Type 0} {r : Outcome A} {f : A → Exec B} {o : Outcome B}
    → Succeeds P r
    → ((a : A) (vm : Vm) → P a vm → f a vm ≡ o)
    → then_run r f ≡ o
Succeeds-then (succeeds p) k = k _ _ p
