-- ===== src/Vfs/RemoveEnds.antt =====
-- The rounds of `dirent_delete` of kernel/fs/dirent.cpp, and the children that are left.
use makarna_x.Base.{
  ℕ, zero, suc, ◌<◌, ◌≤◌, ◌≡◌, refl, ap, ◌∙◌, inl, inr, none, List, [], ◌∷◌, ◌==◌, arith,
  Option-cases, List-cases, Bool-cases,
}
use makarna_x.Sched.State.{pred_ℤ, is_negative}
use makarna_x.DenemeFs.Store.{Outcome, done, fails, stop}
use makarna_x.Vfs.World.{Dirent, World, V, continue, ◌>>◌, put_dirent, dirent_free}
use makarna_x.Vfs.Remove.{
  set_childs, detach, assert_parent, delete_childs, dirent_delete, count_childs,
}

-- The addresses from `b` on have no children.
abbrev pub IsBelow : ℕ → World → Type 0
IsBelow b w = (d : ℕ) → b ≤ d → (w.dirents d).childs ≡ []

count_ext :
    (f g : ℕ → Dirent) (b : ℕ)
    → ((d : ℕ) → (f d).childs ≡ (g d).childs)
    → count_childs f b ≡ count_childs g b
count_ext f g zero same = refl
count_ext f g (suc b) same = let rest = count_ext f g b same in ground (arith, rest, same b)

count_shorter :
    (w : World) (d c b : ℕ) (cs : List ℕ)
    → (w.dirents d).childs ≡ c ∷ cs
    → count_childs (set_childs w d cs).dirents b ≤ count_childs w.dirents b
count_shorter w d c zero cs h = omega arith
count_shorter w d c (suc b) cs h =
    let rest = count_shorter w d c b cs h in
    elim (Bool-cases (d == b)) [
      | inl same ↦ ground (arith, rest, h, same)
      | inr other ↦ ground (arith, rest, other)
    ]

count_less :
    (w : World) (d c b : ℕ) (cs : List ℕ)
    → (w.dirents d).childs ≡ c ∷ cs
    → d < b
    → count_childs (set_childs w d cs).dirents b < count_childs w.dirents b
count_less w d c zero cs h less = absurd (omega (arith, less))
count_less w d c (suc b) cs h less = elim (Bool-cases (d == b)) [
  | inl same ↦ let rest = count_shorter w d c b cs h in ground (arith, rest, h, same)
  | inr other ↦
      let rest = count_less w d c b cs h (ground (arith, less, other)) in
      ground (arith, rest, other)
]

-- What a part of the removal leaves: no new children.
pub record Shrinks (b : ℕ) (w w' : World) : Type 0 where
  pub count : count_childs w'.dirents b ≤ count_childs w.dirents b
  pub below : IsBelow b w'

-- The call has not come to the end of its rounds.
abbrev pub Ended : {A : Type 0} → Outcome A → Type 0
Ended (done a) = Unit {0}
Ended (fails n) = ⊥
Ended stop = Unit {0}

-- Two runs that agree, end, and make no new children.
abbrev Same : {A : Type 0} → ℕ → World → Outcome A × World → Outcome A × World → Type 0
Same b w r r' = (r ≡ r') × Ended r.0 × Shrinks b w r.1

bind-Same :
    {A B : Type 0} (b : ℕ) (w : World) (f f' : A → V B) (o : Outcome A) (u : World)
    (r' : Outcome A × World)
    → Same b w (o, u) r'
    → ((a : A) → Shrinks b w u → Same b u (f a u) (f' a u))
    → Same b w (continue f o u) (continue f' r'.0 r'.1)
bind-Same b w f f' (done a) u r' (e, t, h) next =
    let (same, ends, g) = next a h in
    (
      same ∙ ap (λ q. continue f' q.0 q.1) e,
      ends,
      record { count = omega (arith, h.count, g.count); below = g.below },
    )
bind-Same b w f f' (fails n) u r' (e, t, h) next = elim t [ ]
bind-Same b w f f' stop u r' (e, t, h) next = (ap (λ q. continue f' q.0 q.1) e, tt, h)

free_childs : (d e : ℕ) (w : World) → ((dirent_free d w).1.dirents e).childs ≡ (w.dirents e).childs
unfolding dirent_free
free_childs d e w = elim (Bool-cases (is_negative (pred_ℤ (w.dirents d).ref_count))) [
  | inl last ↦ rw last refl
  | inr more ↦ rw more (ground arith)
]

detach_childs : (d e : ℕ) (w : World) → ((detach d w).1.dirents e).childs ≡ (w.dirents e).childs
detach_childs d e w =
    free_childs d e (put_dirent w d (record (w.dirents d) { inode = none; parent = none }))
    ∙ ground arith

Same-childs :
    {A : Type 0} (b : ℕ) (w : World) (r : Outcome A × World)
    → IsBelow b w
    → Ended r.0
    → ((e : ℕ) → (r.1.dirents e).childs ≡ (w.dirents e).childs)
    → Same b w r r
Same-childs b w r below ends same =
    let e = count_ext r.1.dirents w.dirents b same in
    (refl, ends, record { count = omega (arith, e); below = λ d a. same d ∙ below d a })

assert_parent_childs :
    (c e : ℕ) (w : World) → ((assert_parent c w).1.dirents e).childs ≡ (w.dirents e).childs
assert_parent_childs c e w = elim (Option-cases (w.dirents c).parent) [
  | inl orphan ↦ rw (assert_parent, orphan) refl
  | inr (p, at) ↦ rw (assert_parent, at) refl
]

Shrinks-set :
    (b : ℕ) (w : World) (d : ℕ) (c : ℕ) (cs : List ℕ)
    → IsBelow b w
    → (w.dirents d).childs ≡ c ∷ cs
    → Shrinks b w (set_childs w d cs) × (d < b)
Shrinks-set b w d c cs below h =
    let less : d < b = ground (arith, below d, h) in
    let count = count_less w d c b cs h less in
    (record { count = omega (arith, count); below = λ e a. ground (arith, below e, a, less) }, less)

assert_parent-Ended : (d : ℕ) (w : World) → Ended (assert_parent d w).0
assert_parent-Ended d w = elim (Option-cases (w.dirents d).parent) [
  | inl orphan ↦ rw (assert_parent, orphan) tt
  | inr (p, at) ↦ rw (assert_parent, at) tt
]

free-Ended : (d : ℕ) (w : World) → Ended (dirent_free d w).0
unfolding dirent_free
free-Ended d w = elim (Bool-cases (is_negative (pred_ℤ (w.dirents d).ref_count))) [
  | inl last ↦ rw last tt
  | inr more ↦ rw more tt
]

detach-Ended : (d : ℕ) (w : World) → Ended (detach d w).0
detach-Ended d w =
    free-Ended d (put_dirent w d (record (w.dirents d) { inode = none; parent = none }))

delete_childs_step :
    (k d c : ℕ) (cs : List ℕ) (w : World)
    → (w.dirents d).childs ≡ c ∷ cs
    → delete_childs (suc k) d w
      ≡ (assert_parent c >> (delete_childs k c >> (detach c >> delete_childs k d)))
          (set_childs w d cs)
unfolding delete_childs
delete_childs_step k d c cs w h = rw (delete_childs, h) refl

delete_childs_end :
    (k d : ℕ) (w : World) → (w.dirents d).childs ≡ [] → delete_childs (suc k) d w ≡ (done tt, w)
unfolding delete_childs
delete_childs_end k d w h = rw (delete_childs, h) refl

-- With more rounds than the lists have children, the rounds do not matter.
delete_childs-Same :
    (b k k' d : ℕ) (w : World)
    → IsBelow b w
    → count_childs w.dirents b < k
    → count_childs w.dirents b < k'
    → Same b w (delete_childs k d w) (delete_childs k' d w)
delete_childs-Same b zero k' d w below less less' = absurd (omega (arith, less))
delete_childs-Same b (suc k) zero d w below less less' = absurd (omega (arith, less'))
delete_childs-Same b (suc k) (suc k') d w below less less' =
    elim (List-cases (w.dirents d).childs) [
      | inl empty ↦
          rw (delete_childs_end k d w empty) rw (delete_childs_end k' d w empty)
            (refl, tt, record { count = omega arith; below = below })
      | inr (c, cs, h) ↦
          let w0 = set_childs w d cs in
          let (s0, inside) = Shrinks-set b w d c cs below h in
          let less0 = count_less w d c b cs h inside in
          let asserted = assert_parent c w0 in
          let (e, ends, s) =
            bind-Same b w0 (λ u. delete_childs k c >> (detach c >> delete_childs k d))
              (λ u. delete_childs k' c >> (detach c >> delete_childs k' d)) asserted.0 asserted.1
              asserted
              (Same-childs b w0 asserted s0.below (assert_parent-Ended c w0)
                (λ x. assert_parent_childs c x w0))
              (λ u s1.
                let w1 = asserted.1 in
                let r = delete_childs k c w1 in
                bind-Same b w1 (λ u. detach c >> delete_childs k d)
                  (λ u. detach c >> delete_childs k' d) r.0 r.1 (delete_childs k' c w1)
                  (delete_childs-Same b k k' c w1 s1.below (omega (arith, s1.count, less0))
                    (omega (arith, s1.count, less0)))
                  (λ v s2.
                    let w2 = r.1 in
                    let q = detach c w2 in
                    bind-Same b w2 (λ u. delete_childs k d) (λ u. delete_childs k' d) q.0 q.1 q
                      (Same-childs b w2 q s2.below (detach-Ended c w2) (λ x. detach_childs c x w2))
                      (λ v s3.
                        delete_childs-Same b k k' d q.1 s3.below
                          (omega (arith, s1.count, s2.count, s3.count, less0))
                          (omega (arith, s1.count, s2.count, s3.count, less0))))) in
          rw (delete_childs_step k d c cs w h) rw (delete_childs_step k' d c cs w h)
            (e, ends, record { count = omega (arith, s.count, s0.count); below = s.below })
    ]

-- Where the addresses from `w.next` on have no children, the rounds that `dirent_cache_remove` gives to
-- `dirent_delete` are enough: it never comes to the end of its rounds, so that it returns or fails an
-- ASSERT, and with any greater number of rounds the result and the state are the same. The children
-- of all entries together have not become more.
pub dirent_delete-ends :
    (d k : ℕ) (w : World)
    → IsBelow w.next w
    → count_childs w.dirents w.next < k
    → (dirent_delete k d w ≡ dirent_delete (suc (count_childs w.dirents w.next)) d w)
      × Ended (dirent_delete k d w).0
      × (count_childs (dirent_delete k d w).1.dirents w.next ≤ count_childs w.dirents w.next)
unfolding dirent_delete
dirent_delete-ends d k w below less =
    let b = w.next in
    let k' = suc (count_childs w.dirents w.next) in
    let asserted = assert_parent d w in
    let (e, ends, s) =
      bind-Same b w (λ u. delete_childs k d >> detach d) (λ u. delete_childs k' d >> detach d)
        asserted.0 asserted.1 asserted
        (Same-childs b w asserted below (assert_parent-Ended d w) (λ x. assert_parent_childs d x w))
        (λ u s1.
          let w1 = asserted.1 in
          let r = delete_childs k d w1 in
          bind-Same b w1 (λ u. detach d) (λ u. detach d) r.0 r.1 (delete_childs k' d w1)
            (delete_childs-Same b k k' d w1 s1.below (omega (arith, s1.count, less))
              (omega (arith, s1.count)))
            (λ v s2.
              Same-childs b r.1 (detach d r.1) s2.below (detach-Ended d r.1)
                (λ x. detach_childs d x r.1))) in
    (e, ends, s.count)
