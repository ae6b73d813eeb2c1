-- ===== src/Locks/Cli.antt =====
-- kernel/spinlock.cpp. The state is the interrupt flag of the processor and the two fields of the
-- running task that `pushcli` and `popcli` keep. `none` is a PANIC.
use makarna_x.Base.{ℕ, zero, suc, ◌+◌, Bool, false, ◌&&◌, Option, none, some, ◌==◌, if◌then◌else◌}

pub record Cpu : Type 0 where
  pub interrupts : Bool
  pub n_cli : ℕ
  pub before_pushcli : Bool

unfoldable pub pushcli : Cpu → Cpu
pushcli c = record {
  interrupts = false;
  n_cli = c.n_cli + 1;
  before_pushcli = if c.n_cli == 0 then c.interrupts else c.before_pushcli;
}

-- The count is never below 0, so `--n_cli < 0` is a count of 0 before.
abbrev pub pop_count : Cpu → ℕ → Option Cpu
pop_count c zero = none
pop_count c (suc n) = some (record {
  interrupts = n == 0 && c.before_pushcli;
  n_cli = n;
  before_pushcli = c.before_pushcli;
})

unfoldable pub popcli : Cpu → Option Cpu
popcli c = pop_count c c.n_cli

-- while (xchg(&l->locked, 1) == 0): the value of `locked` after the loop, with the rounds left. Two
-- rounds end it, since the first leaves 1 there.
unfoldable pub exchange_loop : ℕ → ℕ → Option ℕ
exchange_loop zero locked = none
exchange_loop (suc k) locked =
    let again = exchange_loop k 1 in if locked == 0 then again else some 1

-- The state and the value of `locked` after `spinlock_acquire`.
unfoldable pub spinlock_acquire : Cpu → ℕ → Option (Cpu × ℕ)
unfolding exchange_loop
spinlock_acquire c locked = elim (exchange_loop 2 locked) [
  | none ↦ none
  | some l ↦ some (pushcli c, l)
]

unfoldable pub spinlock_release : Cpu → ℕ → Option (Cpu × ℕ)
spinlock_release c locked = elim (popcli c) [ none ↦ none | some c' ↦ some (c', 0) ]
