-- ===== src/Locks/Tests.antt =====
-- The theorems of Locks/Nesting.antt at a state with interrupts on.
use makarna_x.Base.{◌≡◌, refl, ◌⊎◌, inl, true, false, some}
use makarna_x.Locks.Cli.{Cpu}
use makarna_x.Locks.Nesting.{plain, critical, both, run, run_restores}

abbrev awake : Cpu
awake = record { interrupts = true; n_cli = 0; before_pushcli = false }

run_restores_example :
    (c' : Cpu) × (run (critical (both (critical plain) plain)) awake ≡ some c')
    × (c'.interrupts ≡ true)
    × (c'.n_cli ≡ 0)
    × ((awake.n_cli ≡ 0) ⊎ (c'.before_pushcli ≡ false))
run_restores_example = run_restores (critical (both (critical plain) plain)) awake (inl refl)
