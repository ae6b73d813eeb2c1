-- ===== src/Ipc/Dispatch.antt =====
-- The table of kernel/ipc/ipc.cpp and the system call that reads it.
use makarna_x.Base.{
  ℕ, ◌*◌, ◌+◌, ◌<◌, ◌≤◌, ◌≡◌, Bool, Option, none, some, List, [], ◌∷◌, ltb, get_elem?,
  get_elem?-length_le, arith, if◌then◌else◌, ap, ◌∙◌, length,
}

-- The functions of the table.
pub data IpcCall : Type 0 where
  no_ipc semget semctl semop semwait sempost semgetvalue shmget shmat shmdt shmctl : IpcCall

abbrev pub ipc_func : List IpcCall
ipc_func =
    no_ipc ∷ semget ∷ semctl ∷ semop ∷ no_ipc ∷ semwait ∷ sempost ∷ semgetvalue ∷ no_ipc ∷ no_ipc
    ∷ shmget ∷ shmat ∷ shmdt ∷ shmctl ∷ []

-- sizeof(ipc_func): 14 pointers of 4 bytes.
abbrev pub ipc_func_size : ℕ
ipc_func_size = 4 * length ipc_func

-- The function that the system call `ipc` runs: `none` is a call through what stands behind the table.
unfoldable pub ipc : ℕ → Option IpcCall
ipc ipc_no = if ltb ipc_no (ipc_func_size + 1) then get_elem? ipc_func ipc_no else some no_ipc

-- A number from 14 to 56 passes the test of the size, and is past the end of the table.
pub ipc_past_end : (n : ℕ) → 14 ≤ n → n < 57 → ipc n ≡ none
unfolding ipc
ipc_past_end n low high =
    let passes : ltb n 57 ≡ Bool.true = ground (arith, high) in
    ap (λ b. if b then get_elem? ipc_func n else some no_ipc) passes
    ∙ get_elem?-length_le ipc_func n low
