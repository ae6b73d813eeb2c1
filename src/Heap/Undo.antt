-- ===== src/Heap/Undo.antt =====
-- The loops of `kmalloc` and `kfree` of kernel/memory/kmalloc.cpp on one block.
use makarna_x.Base.{
  ℕ, zero, suc, ◌+◌, ◌<◌, ◌≤◌, ◌≡◌, ◌≢◌, refl, sym, ap, ◌∙◌, ◌⊎◌, inl, inr, true, none, some, [],
  ◌∷◌, ◌==◌, arith,
}
use makarna_x.Heap.State.{Heap, continue, assert, ◌>>◌, block_size}
use makarna_x.Heap.Kmalloc.{split, split_down, merge_up}
use makarna_x.Heap.Buddy.{IsAligned, IsAligned-half, block_size_pos, block_size-suc}
use makarna_x.Heap.Halves.{
  free_block, HasNone, Halved, halved, Halved-halve, split_lem, Merged, merged, Merged-merged,
  merge_up_step,
}

-- `h'` is `h` but for what is in the `n` bytes of the block `b`.
pub record Like (h h' : Heap) (b n : ℕ) : Type 0 where
  pub lists : (t : ℕ) → h'.lists t ≡ h.lists t
  pub headers : (a : ℕ) → (a < b) ⊎ (b + n ≤ a) → h'.headers a ≡ h.headers a
  pub owner : (a : ℕ) → (a < b) ⊎ (b + n ≤ a) → h'.owner a ≡ h.owner a
  pub pages : h'.pages ≡ h.pages
  pub locked : h'.locked ≡ h.locked

-- `h'` is `h`, where the block `b` of size `s` has been used and freed: its header is free again and the
-- counts may differ.
pub record Freed (h h' : Heap) (b s : ℕ) : Type 0 where
  pub lists : (t : ℕ) → h'.lists t ≡ h.lists t
  pub headers : (a : ℕ) → b ≢ a → h'.headers a ≡ h.headers a
  pub head : h'.headers b ≡ free_block s
  pub owner : (a : ℕ) → h'.owner a ≡ h.owner a
  pub pages : h'.pages ≡ h.pages
  pub locked : h'.locked ≡ h.locked

-- `s + k`, which grows with `k`.
abbrev pub up : ℕ → ℕ → ℕ
up zero s = s
up (suc k) s = suc (up k s)

pub up-suc : (k s : ℕ) → up k (suc s) ≡ suc (up k s)
up-suc zero s = refl
up-suc (suc k) s = ap (λ n. suc n) (up-suc k s)

pub up_add : (k s : ℕ) → up k s ≡ s + k
up_add zero s = omega arith
up_add (suc k) s = omega (arith, up_add k s)

-- A free block of size `up k s` that is in no list, with no free block below its size down to `s`.
pub record IsSplittable (h : Heap) (b s k : ℕ) : Type 0 where
  pub head : h.headers b ≡ free_block (up k s)
  pub loose : h.owner b ≡ none
  pub aligned : IsAligned b (up k s)
  pub empty : (j : ℕ) → s ≤ j → j < up k s → h.lists j ≡ []
  pub full : (j : ℕ) → s ≤ j → j < up k s → HasNone h b j

-- What `split_down` gives, and that the loop of `kfree` takes it back.
pub record Undone (h h1 : Heap) (b s k : ℕ) : Type 0 where
  pub run : split_down k s b h ≡ some (tt, h1)
  pub head : h1.headers b ≡ free_block s
  pub loose : h1.owner b ≡ none
  pub pages : h1.pages ≡ h.pages
  pub locked : h1.locked ≡ h.locked
  pub undo :
      (h2 : Heap) (f : ℕ)
      → Freed h1 h2 b s
      → (h3 : Heap) × (merge_up (up k f) s b h2 ≡ merge_up f (up k s) b h3)
        × Like h h3 b (block_size (up k s))
        × (h3.headers b ≡ free_block (up k s))
        × (h3.owner b ≡ none)

Undone-zero : (h : Heap) (b s : ℕ) → IsSplittable h b s 0 → Undone h h b s 0
unfolding split_down
Undone-zero h b s c = record {
  run = refl;
  head = c.head;
  loose = c.loose;
  pages = refl;
  locked = refl;
  undo = λ h2 f g.
      let pos = block_size_pos s in
      (
        h2,
        refl,
        record {
          lists = g.lists;
          headers = λ a out. g.headers a (λ e. absurd (ground (arith, out, e, pos)));
          owner = λ a out. g.owner a;
          pages = g.pages;
          locked = g.locked;
        },
        g.head,
        g.owner b ∙ c.loose,
      );
}

split_down_step :
    (k s b : ℕ) (h : Heap)
    → IsSplittable h b s (suc k)
    → split_down (suc k) s b h ≡ split_down k s b (halved h b (b + block_size (up k s)) (up k s))
unfolding split_down
split_down_step k s b h c =
    let ok : ((h.headers b).sizeno == s + suc k) ≡ true = ground (arith, c.head, up_add k s) in
    let tail = λ (u : Unit {0}). split_down k s b in
    ap (λ q. (assert q >> (split b >> split_down k s b)) h) ok
    ∙ ap (continue tail) (
        split_lem h b (up k s) c.head c.loose
          (c.full (up k s) (omega (arith, up_add k s)) (omega arith)) c.aligned)

outside_half : (b n m a : ℕ) → (a < b) ⊎ (b + m ≤ a) → m ≡ n + n → (a < b) ⊎ (b + n ≤ a)
outside_half b n m a (inl less) e = inl less
outside_half b n m a (inr more) e = inr (omega (arith, more, e))

module _ (h : Heap) (b s k : ℕ) (c : IsSplittable h b s (suc k)) where
  abbrev pub half : ℕ
  half = b + block_size (up k s)

  above : b < half
  above = let pos = block_size_pos (up k s) in omega (arith, pos)

module _ (h after : Heap) (b s k : ℕ) (c : IsSplittable h b s (suc k))
    (d : Halved h after b (half h b s k c) (up k s)) where
  abbrev right : ℕ
  right = half h b s k c

  beyond : b < right
  beyond = above h b s k c

  pub after-IsSplittable : IsSplittable after b s k
  after-IsSplittable = record {
    head = d.headers b ∙ ground (arith, beyond);
    loose = d.owner b ∙ ground (arith, beyond, c.loose);
    aligned = IsAligned-half b (up k s) c.aligned;
    empty = λ j low high. d.lists j ∙ ground (arith, high, c.empty j low);
    full = λ j low high. d.counts j high (c.full j low (omega (arith, high)));
  }

  module _ (h3 : Heap) (like : Like after h3 b (block_size (up k s)))
      (head : h3.headers b ≡ free_block (up k s)) (loose : h3.owner b ≡ none) where
    only : h3.lists (up k s) ≡ right ∷ []
    only =
        like.lists (up k s)
        ∙ d.lists (up k s)
        ∙ ground (arith, c.empty (up k s) (omega (arith, up_add k s)) (omega arith))

    rejoined : Merged h3 (merged h3 b right (up k s)) b right (up k s)
    rejoined = Merged-merged h3 b right (up k s) head only

    right3 : h3.headers right ≡ free_block (up k s)
    right3 = like.headers right (inr (omega arith)) ∙ d.headers right ∙ ground arith

    listed3 : h3.owner right ≡ some (up k s)
    listed3 = like.owner right (inr (omega arith)) ∙ d.owner right ∙ ground arith

    Like-rejoined : Like h (merged h3 b right (up k s)) b (block_size (suc (up k s)))
    Like-rejoined =
        let m = rejoined in
        let size = block_size-suc (up k s) in
        record {
          lists = λ t.
              let e = d.lists t in
              let e2 = like.lists t in
              m.lists t
              ∙ ground (arith, e, e2, c.empty (up k s) (omega (arith, up_add k s)) (omega arith));
          headers = λ a out.
              m.headers a
              ∙ ground (
                arith,
                out,
                beyond,
                size,
                d.headers a,
                like.headers a
                    (outside_half b (block_size (up k s)) (block_size (suc (up k s))) a out size),
              );
          owner = λ a out.
              m.owner a
              ∙ ground (
                arith,
                out,
                beyond,
                size,
                d.owner a,
                like.owner a
                    (outside_half b (block_size (up k s)) (block_size (suc (up k s))) a out size),
              );
          pages = m.pages ∙ like.pages ∙ d.pages;
          locked = m.locked ∙ like.locked ∙ d.locked;
        }

  -- The rounds that take back what was split off the left half take back the split, too.
  pub undo-next :
      (h1 h2 : Heap) (f : ℕ)
      → Undone after h1 b s k
      → Freed h1 h2 b s
      → (h3 : Heap) × (merge_up (up (suc k) f) s b h2 ≡ merge_up f (up (suc k) s) b h3)
        × Like h h3 b (block_size (up (suc k) s))
        × (h3.headers b ≡ free_block (up (suc k) s))
        × (h3.owner b ≡ none)
  undo-next h1 h2 f u g =
      let (h3, run, like, head3, loose3) = u.undo h2 (suc f) g in
      (
        merged h3 b right (up k s),
        ap (λ n. merge_up n s b h2) (sym (up-suc k f))
            ∙ run
            ∙ merge_up_step f h3 b (up k s) c.aligned head3 (right3 h3 like head3 loose3) loose3
                (listed3 h3 like head3 loose3),
        Like-rejoined h3 like head3 loose3,
        (rejoined h3 like head3 loose3).headers b ∙ ground arith,
        (rejoined h3 like head3 loose3).owner b ∙ ground (arith, beyond, loose3),
      )

module _ (h : Heap) (b s k : ℕ) (c : IsSplittable h b s (suc k)) where
  abbrev split_once : Heap
  split_once = halved h b (half h b s k c) (up k s)

  Halved-split_once : Halved h split_once b (half h b s k c) (up k s)
  Halved-split_once =
      Halved-halve h b (half h b s k c) (up k s) c.head
        (λ e. absurd (omega (arith, e, above h b s k c)))

  Undone-next : (h1 : Heap) → Undone split_once h1 b s k → Undone h h1 b s (suc k)
  Undone-next h1 u = record {
    run = split_down_step k s b h c ∙ u.run;
    head = u.head;
    loose = u.loose;
    pages = u.pages;
    locked = u.locked;
    undo = λ h2 f g. undo-next h split_once b s k c Halved-split_once h1 h2 f u g;
  }

pub undone : (k s b : ℕ) (h : Heap) → IsSplittable h b s k → (h1 : Heap) × Undone h h1 b s k
undone zero s b h c = (h, Undone-zero h b s c)
undone (suc k) s b h c =
    let after = split_once h b s k c in
    let (h1, u) =
      undone k s b after (after-IsSplittable h after b s k c (Halved-split_once h b s k c)) in
    (h1, Undone-next h b s k c h1 u)
