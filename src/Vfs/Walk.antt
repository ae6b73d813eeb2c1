-- ===== src/Vfs/Walk.antt =====
-- The names of a path, and `dirent_find` of Vfs/Path.antt over them.
use makarna_x.Base.{
  ℕ, zero, suc, ◌<◌, ◌≡◌, refl, ◌∙◌, ◌⊎◌, inl, inr, none, some, List, [], ◌∷◌, ◌++◌, ◌==◌,
  if◌then◌else◌, length, take, length-append, arith, Bool-cases, subst, sym, ap,
}
use mathlib.Core.Path.{fun_ext}
use makarna_x.DenemeFs.Store.{Name, Outcome, Outcome-cases, done, fails, stop}
use makarna_x.Vfs.World.{World, V, pure, ◌>>=◌, continue, dirent_dup}
use makarna_x.Vfs.Path.{slash, parse_path_i, visit, enter, find_loop, start, dirent_find}

abbrev pub flush : Name → List Name → List Name
flush [] ws = ws
flush (x ∷ xs) ws = (x ∷ xs) ∷ ws

-- The names of a path behind the bytes of a first name: the parts between its slashes that are not
-- empty.
abbrev pub names_from : Name → List ℕ → List Name
names_from word [] = flush word []
names_from word (c ∷ cs) =
    if c == slash then flush word (names_from [] cs) else names_from (word ++ c ∷ []) cs

-- Every name has room in `buf`, with its final 0.
abbrev pub AllShort : List Name → Type 0
AllShort [] = Unit {0}
AllShort (w ∷ ws) = (length w < 256) × AllShort ws

-- The lookups of the names, each in what the one before has found.
abbrev pub walk : ℕ → List Name → V ℕ
walk curr [] = pure curr
walk curr (w ∷ ws) = visit curr w >>= λ next. walk next ws

flush_short : (word : Name) (ws : List Name) → AllShort (flush word ws) → length word < 256
flush_short [] ws h = omega arith
flush_short (x ∷ xs) ws h = h.0

short_of : (word : Name) (cs : List ℕ) → AllShort (names_from word cs) → length word < 256
short_of word [] h = flush_short word [] h
short_of word (c ∷ cs) h = elim (Bool-cases (c == slash)) [
  | inl cut ↦ flush_short word (names_from [] cs) (
      subst
        (λ b.
          AllShort (if b then flush word (names_from [] cs) else names_from (word ++ c ∷ []) cs))
        cut h)
  | inr other ↦
      let longer = short_of (word ++ c ∷ []) cs (
        subst
          (λ b.
            AllShort (if b then flush word (names_from [] cs) else names_from (word ++ c ∷ []) cs))
          other h) in
      omega (arith, longer, length-append word (c ∷ []))
]

-- What one call of `parse_path_i` finds: the last name or none, or a name and more of the path.
abbrev IsParsed : Name → List ℕ → Type 0
IsParsed word cs =
    ((w : Name) × (parse_path_i word cs ≡ some (w, none)) × (names_from word cs ≡ flush w []))
    ⊎ ((x : ℕ) × (w : Name) × (rest : List ℕ) × (parse_path_i word cs ≡ some (x ∷ w, some rest))
        × (names_from word cs ≡ (x ∷ w) ∷ names_from [] rest)
        × (length rest < length cs))

parse_path_i-IsParsed :
    (word : Name) (cs : List ℕ) → AllShort (names_from word cs) → IsParsed word cs
unfolding parse_path_i
parse_path_i-IsParsed word [] h = let room = short_of word [] h in inl (word, ground arith, refl)
parse_path_i-IsParsed [] (c ∷ cs) h = elim (Bool-cases (c == slash)) [
  | inl cut ↦
      elim (parse_path_i-IsParsed [] cs
        (subst (λ b. AllShort (if b then names_from [] cs else names_from (c ∷ []) cs)) cut h)) [
          | inl (w, run, names) ↦ inl (w, ground arith, ground arith)
          | inr (x, w, rest, run, names, less) ↦
              inr (x, w, rest, ground arith, ground arith, omega (arith, less))
        ]
  | inr other ↦
      elim (parse_path_i-IsParsed (c ∷ []) cs
        (subst (λ b. AllShort (if b then names_from [] cs else names_from (c ∷ []) cs)) other h)) [
          | inl (w, run, names) ↦ inl (w, ground arith, ground arith)
          | inr (x, w, rest, run, names, less) ↦
              inr (x, w, rest, ground arith, ground arith, omega (arith, less))
        ]
]
parse_path_i-IsParsed (y ∷ ys) (c ∷ cs) h =
    let room = short_of (y ∷ ys) (c ∷ cs) h in
    elim (Bool-cases (c == slash)) [
      | inl cut ↦ inr (y, ys, cs, ground arith, ground arith, omega arith)
      | inr other ↦
          elim (parse_path_i-IsParsed (y ∷ ys ++ c ∷ []) cs (
            subst
              (λ b.
                AllShort
                  (if b then (y ∷ ys) ∷ names_from [] cs else names_from (y ∷ ys ++ c ∷ []) cs))
              other h)) [
                | inl (w, run, names) ↦ inl (w, ground arith, ground arith)
                | inr (x, w, rest, run, names, less) ↦
                    inr (x, w, rest, ground arith, ground arith, omega (arith, less))
              ]
    ]

-- The last round, and a round with more to come.
last_round :
    (k : ℕ) (cs : List ℕ) (w : Name) (curr : ℕ) (s : World)
    → parse_path_i [] cs ≡ some (w, none)
    → find_loop (suc k) cs curr s ≡ enter curr w s
unfolding find_loop
last_round k cs w curr s run = rw (find_loop, run) refl

next_round :
    (k x : ℕ) (cs : List ℕ) (w : Name) (rest : List ℕ) (curr : ℕ) (s : World)
    → parse_path_i [] cs ≡ some (x ∷ w, some rest)
    → find_loop (suc k) cs curr s ≡ (visit curr (x ∷ w) >>= λ next. find_loop k rest next) s
unfolding find_loop
next_round k x cs w rest curr s run = rw (find_loop, run) refl

walk-flush :
    (curr : ℕ) (w : Name) (s : World)
    → (r : Outcome ℕ) × (t : World) × (enter curr w s ≡ (r, t))
      × (walk curr (flush w []) s ≡ (r, t))
walk-flush curr [] s = (done curr, s, refl, refl)
walk-flush curr (x ∷ xs) s = elim (Outcome-cases (visit curr (x ∷ xs) s).0) [
  | inl (a, found) ↦ (done a, (visit curr (x ∷ xs) s).1, ground arith, ground arith)
  | inr (inl (n, failed)) ↦ (fails n, (visit curr (x ∷ xs) s).1, ground arith, ground arith)
  | inr (inr stopped) ↦ (stop, (visit curr (x ∷ xs) s).1, ground arith, ground arith)
]

find_loop_lem :
    (k : ℕ) (cs : List ℕ) (curr : ℕ) (s : World)
    → length cs < k
    → AllShort (names_from [] cs)
    → find_loop k cs curr s ≡ walk curr (names_from [] cs) s
find_loop_lem zero cs curr s less short = absurd (omega arith)
find_loop_lem (suc k) cs curr s less short = elim (parse_path_i-IsParsed [] cs short) [
  | inl (w, run, names) ↦
      let (r, t, a, b) = walk-flush curr w s in
      last_round k cs w curr s run ∙ a ∙ sym b ∙ ap (λ ws. walk curr ws s) (sym names)
  | inr (x, w, rest, run, names, shorter) ↦
      let rest_short = (subst AllShort names short).1 in
      let m = visit curr (x ∷ w) s in
      next_round k x cs w rest curr s run
      ∙ ap (λ f. continue f m.0 m.1)
          (fun_ext λ next. fun_ext λ t. find_loop_lem k rest next t (omega arith) rest_short)
      ∙ ap (λ ws. walk curr ws s) (sym names)
]

-- Where every name of the path, up to `len` bytes, has room in the buffer, `dirent_find` looks up the
-- names one after the other, each in what the one before has found: the parts between the slashes
-- that are not empty. It always has rounds enough.
pub dirent_find-walk :
    (path : List ℕ) (len : ℕ) (s : World)
    → AllShort (names_from [] (take len path))
    → dirent_find path len s
      ≡ (dirent_dup (start path s) >>= λ curr. walk curr (names_from [] (take len path))) s
unfolding dirent_find dirent_dup
dirent_find-walk path len s short =
    find_loop_lem (suc (length (take len path))) (take len path) (start path s)
      (dirent_dup (start path s) s).1 (omega arith) short
