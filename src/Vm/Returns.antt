-- ===== src/Vm/Returns.antt =====
-- What holds of the value and the state of a run, if it returns; and of a result.
use atomix_js.Prelude.{Bool, true, false, if◌then◌else◌}
use atomix_js.Prelude.Result.{Result, ok, panic, fault, Message, ◌>>=◌}
use atomix_js.Vm.{Vm}
use atomix_js.Vm.Exec.{Exec, Outcome, ret, panicked, crashed, out_of_fuel, then_run, lift}

pub data Yields {A : Type 0} (P : A → Type 0) : Result A → Type 0 where
  yields : {a : A} → P a → Yields P (ok a)
  panics : {m : Message} → Yields P (panic m)
  faults : Yields P fault

pub data Returns {A : Type 0} (P : A → Vm → Type 0) : Outcome A → Type 0 where
  returns : {a : A} {vm : Vm} → P a vm → Returns P (ret a vm)
  panics : {m : Message} → Returns P (panicked m)
  crashes : Returns P crashed
  exhausts : Returns P out_of_fuel

module _ {A : Type 0} where
  pub Yields-any : (r : Result A) → Yields (λ a. Unit) r
  Yields-any (ok a) = Yields.yields tt
  Yields-any (panic m) = Yields.panics
  Yields-any fault = Yields.faults

  pub Returns-any : (r : Outcome A) → Returns (λ a w. Unit) r
  Returns-any (ret a vm) = Returns.returns tt
  Returns-any (panicked m) = Returns.panics
  Returns-any crashed = Returns.crashes
  Returns-any out_of_fuel = Returns.exhausts

  pub Returns-lift :
      {P : A → Type 0} {r : Result A} (vm : Vm) → Yields P r → Returns (λ a w. P a) (lift r vm)
  Returns-lift vm (Yields.yields p) = Returns.returns p
  Returns-lift vm Yields.panics = Returns.panics
  Returns-lift vm Yields.faults = Returns.crashes

  pub Returns-if :
      {P : A → Vm → Type 0} (b : Bool) {m n : Exec A} (vm : Vm)
      → ((w : Vm) → Returns P (m w))
      → ((w : Vm) → Returns P (n w))
      → Returns P ((if b then m else n) vm)
  Returns-if true vm k l = k vm
  Returns-if false vm k l = l vm

module _ {A B : Type 0} where
  pub Yields-bind :
      {P : A → Type 0} {Q : B → Type 0} {r : Result A} {f : A → Result B}
      → Yields P r
      → ((a : A) → P a → Yields Q (f a))
      → Yields Q (r >>= f)
  Yields-bind (Yields.yields p) k = k _ p
  Yields-bind Yields.panics k = Yields.panics
  Yields-bind Yields.faults k = Yields.faults

  pub Returns-bind :
      {P : A → Vm → Type 0} {Q : B → Vm → Type 0} {r : Outcome A} {f : A → Exec B}
      → Returns P r
      → ((a : A) (vm : Vm) → P a vm → Returns Q (f a vm))
      → Returns Q (then_run r f)
  Returns-bind (Returns.returns p) k = k _ _ p
  Returns-bind Returns.panics k = Returns.panics
  Returns-bind Returns.crashes k = Returns.crashes
  Returns-bind Returns.exhausts k = Returns.exhausts

  -- Nothing is asked of the first part.
  pub Returns-after :
      {Q : B → Vm → Type 0} (r : Outcome A) {f : A → Exec B}
      → ((a : A) (vm : Vm) → Returns Q (f a vm))
      → Returns Q (then_run r f)
  Returns-after r k = Returns-bind (Returns-any r) λ a vm u. k a vm
