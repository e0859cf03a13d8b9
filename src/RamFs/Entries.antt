-- ===== src/RamFs/Entries.antt =====
-- What the changes of a directory of ramfs/fs.rs do to what is found in it.
use jinux.Base.{
  ℕ, ◌≡◌, sym, ap, ◌∙◌, inl, inr, true, false, Option, none, some, arith, Bool-cases, Option-cases,
}
use jinux.SlotVec
use jinux.SlotVec.{SlotVec}
use jinux.RamFs.{Name, name_eq, DirEntry}
use jinux.RamFs.Dir.{is_dots, get_entry}
use jinux.RamFs.Find.{eq_of_name_eq, IsDir, get_entry-some, get_entry-inv}

get_entry-dots :
    (d d' : DirEntry) (name : Name)
    → is_dots name ≡ true
    → (d'.this ≡ d.this) × (d'.parent ≡ d.parent)
    → get_entry d' name ≡ get_entry d name
unfolding get_entry
get_entry-dots d d' name p heads = ground (arith, heads.0, heads.1)

-- Two directories that hold a name in the same slots find the same.
pub get_entry-ext :
    (d d' : DirEntry) (name : Name)
    → IsDir d
    → IsDir d'
    → (d'.this ≡ d.this) × (d'.parent ≡ d.parent)
    → ((j ino : ℕ)
        → SlotVec.get d.children j ≡ some (name, ino)
        → SlotVec.get d'.children j ≡ some (name, ino))
    → ((j ino : ℕ)
        → SlotVec.get d'.children j ≡ some (name, ino)
        → SlotVec.get d.children j ≡ some (name, ino))
    → get_entry d' name ≡ get_entry d name
get_entry-ext d d' name v v' heads there back = elim (Bool-cases (is_dots name)) [
  | inl p ↦ get_entry-dots d d' name p heads
  | inr p ↦ elim (Option-cases (get_entry d name)) [
    | inl e ↦ elim (Option-cases (get_entry d' name)) [
      | inl e' ↦ e' ∙ sym e
      | inr ((idx, ino), e') ↦
          let (j, at, h) = get_entry-inv d' name v' p idx ino e' in
          e' ∙ ap (λ i. some (i, ino)) at ∙ sym (get_entry-some d name v p j ino (back j ino h))
    ]
    | inr ((idx, ino), e) ↦
        let (j, at, h) = get_entry-inv d name v p idx ino e in
        get_entry-some d' name v' p j ino (there j ino h) ∙ ap (λ i. some (i, ino)) (sym at) ∙ sym e
  ]
]

-- `d'` is `d` with `v` under `name`: a directory, with the same "." and "..", in which every other name is found where
-- it was.
pub record Changed (d d' : DirEntry) (name : Name) (v : Option (ℕ × ℕ)) : Type 0 where
  pub proper : IsDir d'
  pub heads : (d'.this ≡ d.this) × (d'.parent ≡ d.parent)
  pub here : get_entry d' name ≡ v
  pub others : (n : Name) → name_eq n name ≡ false → get_entry d' n ≡ get_entry d n

-- `d'` is `d` with the entry `(idx, ino)` under `new` and no longer under `old`.
pub record Renamed (d d' : DirEntry) (old new : Name) (idx ino : ℕ) : Type 0 where
  pub proper : IsDir d'
  pub heads : (d'.this ≡ d.this) × (d'.parent ≡ d.parent)
  pub here : get_entry d' new ≡ some (idx, ino)
  pub lost : get_entry d' old ≡ none
  pub others :
      (n : Name) → name_eq n new ≡ false → name_eq n old ≡ false → get_entry d' n ≡ get_entry d n

-- The name of no child, from the slots.
pub absent :
    (d : DirEntry) (name : Name)
    → IsDir d
    → is_dots name ≡ false
    → get_entry d name ≡ none
    → (j : ℕ) (a : Name × ℕ) → SlotVec.get d.children j ≡ some a
    → name_eq a.0 name ≡ false
absent d name v p e j a h = elim (Bool-cases (name_eq a.0 name)) [
  | inl n ↦
      let at : SlotVec.get d.children j ≡ some (name, a.1) =
        h ∙ ap (λ (t : Name). some (t, a.1)) (eq_of_name_eq a.0 name n) in
      let found = get_entry-some d name v p j a.1 at in ground (arith, e, found)
  | inr n ↦ n
]
