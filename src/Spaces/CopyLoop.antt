-- ===== src/Spaces/CopyLoop.antt =====
-- The parts of the loop of `copy_pages`: one round, and how rounds follow each other.
use makarna_x.Base.{
  ℕ, suc, ◌+◌, ◌/◌, ◌%◌, ◌<◌, ◌≤◌, ◌≡◌, ◌≢◌, refl, sym, ap, ◌∙◌, ◌⊎◌, inl, inr, true, false, Option,
  none, some, arith, subst,
}
use makarna_x.DenemeFs.Store.{done, fails}
use makarna_x.Memory.Virtual.{Pte, page_get, enomem}
use makarna_x.Spaces.State.{Vm}
use makarna_x.Spaces.Tmp.{pte_of}
use makarna_x.Spaces.Segments.{present_pte, copy_entry}
use makarna_x.Spaces.Entries.{in_user, in_kernel}
use makarna_x.Spaces.Ready.{IsReady, IsUsed}
use makarna_x.Spaces.Tables.{shows, layout_of}
use makarna_x.Spaces.CopyPage.{Leaves}
use makarna_x.Spaces.Copies.{copy_page_lem}

-- What the directory `k` shows at `x` in `w`, for what the source showed there in `v`: nothing, or a
-- page of its own with the three low bits of the permission and the same bytes.
abbrev pub CopyOf : ℕ → Vm → Vm → ℕ → Option Pte → Type 0
CopyOf k v w x none = shows w k x ≡ none
CopyOf k v w x (some pte) =
    (n : ℕ) × (shows w k x ≡ some (pte_of n (pte.perm % 8)))
    × (n ≢ pte.page)
    × (w.bytes n ≡ v.bytes pte.page)
    × IsUsed w n

abbrev pub InRange : ℕ → ℕ → ℕ → Type 0
InRange i n x = (i / 4096 ≤ x / 4096) × (x / 4096 < i / 4096 + n)

-- A range of `n` pages from `i` on that can be copied from `src` to `k`.
pub record CanCopy (n k src i : ℕ) (v : Vm) : Type 0 where
  pub ready : IsReady v
  pub task : k ≢ 0
  pub source : src ≢ 0
  pub apart : src ≢ k
  pub in_use :
      (x : ℕ) (pte : Pte) → shows v src x ≡ some pte → IsUsed v pte.page × (pte.perm % 2 ≡ 1)
  pub empty : (x : ℕ) → InRange i n x → shows v k x ≡ none
  pub area :
      (x : ℕ)
      → InRange i n x
      → in_user (layout_of v k) x ≡ false
      → in_kernel (layout_of v k) x ≡ true

-- The range has been copied, and all else is as it was.
pub record RangeCopied (n k src i : ℕ) (v w : Vm) : Type 0 where
  pub leaves : Leaves k v w
  pub copies : (x : ℕ) → InRange i n x → CopyOf k v w x (shows v src x)
  pub rest : (x : ℕ) → ¬ (InRange i n x) → shows w k x ≡ shows v k x

pub Leaves-refl : (k : ℕ) (v : Vm) → IsReady v → Leaves k v v
Leaves-refl k v r = record {
  ready = r;
  areas = refl;
  cr3 = refl;
  others = λ j a b. refl;
  layout = refl;
  used = λ y h. (refl, refl);
}

pub Leaves-trans : (k : ℕ) (u v w : Vm) → Leaves k u v → Leaves k v w → Leaves k u w
Leaves-trans k u v w f g = record {
  ready = g.ready;
  areas = g.areas ∙ f.areas;
  cr3 = g.cr3 ∙ f.cr3;
  others = λ j a b. g.others j a b ∙ f.others j a b;
  layout = g.layout ∙ f.layout;
  used = λ y h.
      let (a, b) = f.used y h in let (c, d) = g.used y (ap (λ z. z.free) a ∙ h) in (c ∙ a, d ∙ b);
}

-- The entry depends on the page of the address alone.
pub same_shows : (v : Vm) (k x y : ℕ) → x / 4096 ≡ y / 4096 → shows v k x ≡ shows v k y
unfolding page_get
same_shows v k x y e =
    ap
      (λ p. present_pte (elim ((v.spaces k).info.pgtables (p / 1024)) as (λ z. Option Pte) [
        | none ↦ none
        | some t ↦ some (t (p % 1024))
      ]))
      e

shown_entry :
    (p perm : ℕ)
    → perm % 2 ≡ 1
    → present_pte (some (pte_of p (perm % 8))) ≡ some (pte_of p (perm % 8))
shown_entry p perm odd = let low : perm % 8 % 2 ≡ 1 = omega (arith, odd) in ground (arith, low)

-- One round.
abbrev pub StepResult : ℕ → ℕ → ℕ → Vm → Option Pte → Type 0
StepResult k src i v o =
    ((u : Vm) × (copy_entry k i o v ≡ (done tt, u))
      × Leaves k v u
      × CopyOf k v u i o
      × ((x : ℕ) → x / 4096 ≢ i / 4096 → shows u k x ≡ shows v k x))
    ⊎ ((w : Vm) × (copy_entry k i o v ≡ (fails enomem, w)))

pub copy_step :
    (k src i : ℕ) (v : Vm) (o : Option Pte)
    → IsReady v
    → k ≢ 0
    → shows v k i ≡ none
    → (in_user (layout_of v k) i ≡ false → in_kernel (layout_of v k) i ≡ true)
    → ((pte : Pte) → o ≡ some pte → IsUsed v pte.page × (pte.perm % 2 ≡ 1))
    → StepResult k src i v o
copy_step k src i v none ready ne empty area in_use =
    inl (v, refl, Leaves-refl k v ready, empty, λ x a. refl)
copy_step k src i v (some pte) ready ne empty area in_use =
    let (used, odd) = in_use pte refl in
    elim (copy_page_lem v k i pte.perm pte.page ready ne empty area) [
      | inr (w, run) ↦ inr (w, run)
      | inl (u, run, c) ↦ inl (
        u,
        run,
        c.leaves,
        (
          c.page,
          ap present_pte c.entry ∙ shown_entry c.page pte.perm odd,
          λ e. absurd (cc (sym c.was_free ∙ ap (λ y. (v.memory.pages y).free) e ∙ used)),
          c.bytes,
          c.used,
        ),
        c.rest,
      )
    ]

-- A copy stays one when its page stays in use.
pub CopyOf-later :
    (k x : ℕ) (v u w : Vm) (o : Option Pte)
    → Leaves k u w
    → shows w k x ≡ shows u k x
    → CopyOf k v u x o
    → CopyOf k v w x o
CopyOf-later k x v u w none l same h = same ∙ h
CopyOf-later k x v u w (some pte) l same (n, at, apart, bytes, used) =
    let (page, kept) = l.used n used in
    (n, same ∙ at, apart, kept ∙ bytes, ap (λ y. y.free) page ∙ used)

-- A copy of what the source showed after some rounds is one of what it showed before them.
pub CopyOf-before :
    (k x : ℕ) (v u w : Vm) (o : Option Pte)
    → Leaves k v u
    → ((pte : Pte) → o ≡ some pte → IsUsed v pte.page)
    → CopyOf k u w x o
    → CopyOf k v w x o
CopyOf-before k x v u w none l in_use h = h
CopyOf-before k x v u w (some pte) l in_use (n, at, apart, bytes, used) =
    (n, at, apart, bytes ∙ (l.used pte.page (in_use pte refl)).1, used)

later_range : (i n x : ℕ) → InRange (i + 4096) n x → InRange i (suc n) x
later_range i n x (a, b) = (omega (arith, a), omega (arith, b))

pub CanCopy-later :
    (n k src i : ℕ) (v u : Vm)
    → CanCopy (suc n) k src i v
    → Leaves k v u
    → ((x : ℕ) → x / 4096 ≢ i / 4096 → shows u k x ≡ shows v k x)
    → CanCopy n k src (i + 4096) u
CanCopy-later n k src i v u c l rest =
    let space = l.others src c.source c.apart in
    record {
      ready = l.ready;
      task = c.task;
      source = c.source;
      apart = c.apart;
      in_use = λ x pte h.
          let (used, odd) =
            c.in_use x pte (sym (ap (λ s. present_pte (page_get s.info x)) space) ∙ h) in
          (ap (λ y. y.free) (l.used pte.page used).0 ∙ used, odd);
      empty = λ x range.
          let away : x / 4096 ≢ i / 4096 = λ e. absurd (omega (arith, e, range.0)) in
          rest x away ∙ c.empty x (later_range i n x range);
      area = λ x range.
          subst (λ a. in_user a x ≡ false → in_kernel a x ≡ true) (sym l.layout)
            (c.area x (later_range i n x range));
    }
