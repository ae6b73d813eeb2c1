-- ===== src/Locks/Nesting.antt =====
-- Critical sections of Locks/Cli.antt within each other, and what the spin lock does not exclude.
use makarna_x.Base.{
  ℕ, zero, suc, ◌+◌, ◌≡◌, refl, ◌⊎◌, inr, false, ◌&&◌, Option, none, some, ◌==◌, if◌then◌else◌,
  arith,
}
use makarna_x.Locks.Cli.{Cpu, pushcli, popcli, exchange_loop, spinlock_acquire}

-- Code with critical sections, one after the other or within each other.
pub data Code : Type 0 where
  plain : Code
  critical : Code → Code
  both : Code → Code → Code

abbrev pub then_run : Option Cpu → (Cpu → Option Cpu) → Option Cpu
then_run none f = none
then_run (some c) f = f c

abbrev pub run : Code → Cpu → Option Cpu
run plain c = some c
run (critical p) c = then_run (run p (pushcli c)) popcli
run (both p q) c = then_run (run p c) (run q)

-- Within a critical section interrupts are off.
abbrev pub IsMasked : Cpu → Type 0
IsMasked c = (c.n_cli ≡ 0) ⊎ (c.interrupts ≡ false)

-- Critical sections, however they are nested, never stop the kernel, and leave the interrupt flag and
-- the count as they were; within a section they also leave the flag that was saved.
pub run_restores :
    (p : Code) (c : Cpu)
    → IsMasked c
    → (c' : Cpu) × (run p c ≡ some c')
      × (c'.interrupts ≡ c.interrupts)
      × (c'.n_cli ≡ c.n_cli)
      × ((c.n_cli ≡ 0) ⊎ (c'.before_pushcli ≡ c.before_pushcli))
unfolding pushcli popcli
run_restores plain c h = (c, refl, refl, refl, inr refl)
run_restores (both p q) c h =
    let (c1, a, flag1, count1, saved1) = run_restores p c h in
    let (c2, b, flag2, count2, saved2) = run_restores q c1 (ground arith) in
    (c2, ground arith, ground arith, ground arith, ground arith)
run_restores (critical p) c h =
    let inner : Cpu = record {
      interrupts = false;
      n_cli = c.n_cli + 1;
      before_pushcli = if c.n_cli == 0 then c.interrupts else c.before_pushcli;
    } in
    let (c1, a, flag, count, saved) = run_restores p inner (inr refl) in
    let out : Cpu = record {
      interrupts = c.n_cli == 0 && c1.before_pushcli;
      n_cli = c.n_cli;
      before_pushcli = c1.before_pushcli;
    } in
    let same : c1.n_cli ≡ suc c.n_cli = ground arith in
    (out, ground arith, ground arith, refl, ground arith)

-- `spinlock_acquire` returns at once, with the lock taken, whether the lock was free or is held: the
-- loop waits while the lock was free before the exchange, not while it was held.
pub spinlock_acquire_held : (c : Cpu) (locked : ℕ) → spinlock_acquire c locked ≡ some (pushcli c, 1)
unfolding spinlock_acquire exchange_loop
spinlock_acquire_held c zero = refl
spinlock_acquire_held c (suc n) = ground arith
