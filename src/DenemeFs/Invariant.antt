-- ===== src/DenemeFs/Invariant.antt =====
-- The well-formed tables of kernel/fs/denemefs, and that new names keep them well-formed. The
-- entries that removals leave behind, with no name, are not links.
use makarna_x.Base.{
  ℕ, ◌≤◌, ◌<◌, ◌≡◌, ◌≢◌, refl, inr, none, some, List, [], ◌∷◌, ◌++◌, ◌==◌, if◌then◌else◌, length,
  length-append, arith,
}
use makarna_x.DenemeFs.Store.{Name, Entry, ft_dir, entries, DenemeInode, Table}
use makarna_x.DenemeFs.Dir.{find_entry}
use makarna_x.DenemeFs.Entries.{find_from-some, find_entry-push, name_eq_iff, DistinctNames}
use makarna_x.DenemeFs.Tables.{FreeIsBlank, HasRoom}
use makarna_x.DenemeFs.Create.{added}

-- The directory and the name under which an inode is linked.
abbrev pub Owner : Type 0
Owner = ℕ → ℕ × Name

abbrev pub own : Owner → ℕ → ℕ → Name → Owner
own owner ino d name j = if ino == j then (d, name) else owner j

pub record WellFormed (owner : Owner) (di : Table) : Type 0 where
  pub free : FreeIsBlank di
  pub kind :
      (d : ℕ) (es : List Entry)
      → (di d).content ≡ entries es
      → ((di d).mode.type ≡ ft_dir) × (length es ≤ 56) × DistinctNames es
  pub linked :
      (d : ℕ) (es : List Entry) (name : Name) (ino : ℕ)
      → (di d).content ≡ entries es
      → name ≢ []
      → find_entry es name ≡ some ino
      → ((di ino).nlinks ≢ 0) × (ino < 100) × (owner ino ≡ (d, name))

find_entry-push_none :
    (es : List Entry) (e : Entry) (name : Name)
    → find_entry es name ≡ none
    → e.name ≢ name
    → find_entry (es ++ e ∷ []) name ≡ none
unfolding find_entry
find_entry-push_none [] e name h k = ground (arith, name_eq_iff e.name name)
find_entry-push_none (x ∷ es) e name h k = ground (arith, find_entry-push_none es e name)

DistinctNames-push :
    (es : List Entry) (e : Entry)
    → find_entry es e.name ≡ none
    → DistinctNames es
    → DistinctNames (es ++ e ∷ [])
unfolding find_entry
DistinctNames-push [] e h d = (inr refl, tt)
DistinctNames-push (x ∷ es) e h d =
    ground
      (arith, DistinctNames-push es e, find_entry-push_none es e x.name, name_eq_iff x.name e.name)

-- What a new inode may hold: no slots, or none yet.
abbrev pub IsFresh : DenemeInode → Type 0
IsFresh v =
    (v.nlinks ≡ 1)
    × ((es : List Entry) → v.content ≡ entries es → (es ≡ []) × (v.mode.type ≡ ft_dir))

module _ (owner : Owner) (d : ℕ) (name : Name) (ino : ℕ) (es : List Entry) (di : Table)
    (h : HasRoom d es name ino di) (used : (di d).nlinks ≢ 0) (w : WellFormed owner di)
    (v : DenemeInode) (fresh : IsFresh v) where
  free-added : FreeIsBlank (added di d es name ino v)
  free-added i e = ground (arith, w.free i, find_from-some 100 0 ino di, h.free)

  kind-added :
      (k : ℕ) (fs : List Entry)
      → (added di d es name ino v k).content ≡ entries fs
      → ((added di d es name ino v k).mode.type ≡ ft_dir) × (length fs ≤ 56) × DistinctNames fs
  kind-added k fs c = ground (
    arith,
    w.kind k fs,
    w.kind d es,
    fresh.1 fs,
    h.slots,
    h.absent,
    h.room,
    DistinctNames-push es (record { no = ino; name = name }),
    length-append es (record { no = ino; name = name } ∷ []),
  )

  linked-added :
      (k : ℕ) (fs : List Entry) (other : Name) (target : ℕ)
      → (added di d es name ino v k).content ≡ entries fs
      → other ≢ []
      → find_entry fs other ≡ some target
      → ((added di d es name ino v target).nlinks ≢ 0)
        × (target < 100)
        × (own owner ino d name target ≡ (k, other))
  unfolding find_entry
  linked-added k fs other target c plain found = ground (
    arith,
    w.linked k fs other target,
    w.linked d es other target,
    fresh.1 fs,
    fresh.0,
    h.slots,
    h.free,
    find_from-some 100 0 ino di,
    find_entry-push es (record { no = ino; name = name }) other h.absent,
    name_eq_iff name other,
  )

  pub WellFormed-added : WellFormed (own owner ino d name) (added di d es name ino v)
  WellFormed-added = record { free = free-added; kind = kind-added; linked = linked-added }
